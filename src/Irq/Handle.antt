-- ===== src/Irq/Handle.antt =====
-- irq/irq.c: handling an interrupt, and counting the interrupts that no handler handles.
use mathlib.Core.Path.{subst}
use yatos.Prelude.{
  ℕ, zero, suc, ◌+◌, ◌%◌, ◌^◌, ◌≤◌, ◌<◌, ◌≡◌, refl, sym, ap, ◌∙◌, inl, inr, arith, Bool, true,
  false, not, ltb, ◌==◌, if◌then◌else◌, Bool-cases, lt→ltb, List, [], ◌∷◌, ◌++◌, Option, none, some,
  Exec, done, ◌>>=◌,
}
use yatos.Bits.{digit, test_bit, set_bit}
use yatos.Irq.{
  nr_irqs, exclusive, spurious_intr_threshold, IhandlerRes, handled, next, IrqCntlr, IrqHandler,
  IrqEntry, IrqManager, Act, inc_intr, dec_intr, disable_line, send_eoi, enable_line, call_handler,
  call_handlers, operate, is_there, handle_spurious, kcom_handle_irqs,
}
use yatos.Irq.Masks.{set_bit-here}

-- All the handlers leave the interrupt to the next one.
abbrev pub AllNext : (IrqHandler → IhandlerRes) → List IrqHandler → Type 0
AllNext answer [] = Unit {0}
AllNext answer (h ∷ hs) = (answer h ≡ next) × AllNext answer hs

-- the calls of the handlers
abbrev pub calls_of : Bool → List IrqHandler → List Act
calls_of multi [] = []
calls_of multi (h ∷ hs) = call_handler h.handler multi ∷ calls_of multi hs

call_handlers-handled :
    (answer : IrqHandler → IhandlerRes) (multi : Bool) (pre : List IrqHandler) (h : IrqHandler)
    (post : List IrqHandler)
    → AllNext answer pre
    → answer h ≡ handled
    → call_handlers answer multi (pre ++ (h ∷ post)) ≡ (calls_of multi (pre ++ (h ∷ [])), true)
unfolding call_handlers
call_handlers-handled answer multi [] h post a e = rw e refl
call_handlers-handled answer multi (x ∷ pre) h post a e =
    rw (a.0, call_handlers-handled answer multi pre h post a.1 e) refl

call_handlers-next :
    (answer : IrqHandler → IhandlerRes) (multi : Bool) (hs : List IrqHandler)
    → AllNext answer hs
    → call_handlers answer multi hs ≡ (calls_of multi hs, false)
unfolding call_handlers
call_handlers-next answer multi [] a = refl
call_handlers-next answer multi (x ∷ hs) a = rw (a.0, call_handlers-next answer multi hs a.1) refl

-- A controller whose operations are there and return 0 for the line.
abbrev pub Works : IrqCntlr → ℕ → Type 0
Works c irq_no =
    (operate c.enable irq_no ≡ done tt)
    × (operate c.disable irq_no ≡ done tt)
    × (operate c.send_eoi irq_no ≡ done tt)

there_if_works :
    (f : Option (ℕ → Bool)) (irq_no : ℕ) → operate f irq_no ≡ done tt → is_there f ≡ done tt
there_if_works none irq_no e = absurd cc
there_if_works (some f) irq_no e = refl

digit-counted :
    (w p cnt : ℕ)
    → cnt < spurious_intr_threshold
    → digit w p ≡ (cnt == spurious_intr_threshold)
    → digit (if (cnt + 1) % 2 ^ 64 == spurious_intr_threshold then set_bit w p else w) p
      ≡ (cnt + 1 == spurious_intr_threshold)
digit-counted w p cnt h d = elim (Bool-cases ((cnt + 1) % 2 ^ 64 == spurious_intr_threshold)) [
  | inl t ↦
      let last : true ≡ (cnt + 1 == spurious_intr_threshold) = ground arith in
      rw t (set_bit-here w p ∙ last)
  | inr t ↦
      let before : (cnt == spurious_intr_threshold) ≡ (cnt + 1 == spurious_intr_threshold) =
        ground arith in
      rw t (d ∙ before)
]

module _ (irq_no : ℕ) (there : irq_no < nr_irqs) (c : IrqCntlr) (works : Works c irq_no)
    (answer : IrqHandler → IhandlerRes) where
  -- whether the CPU takes interrupts while a handler of the line runs
  abbrev pub multi_of : IrqManager → Bool
  multi_of m = not (test_bit (m.entries irq_no).iflags exclusive)

  handle_by_calls :
      (m : IrqManager) (calls : List Act) (b : Bool)
      → (m.entries irq_no).controller ≡ some c
      → call_handlers answer (multi_of m) (m.entries irq_no).hdlr_que ≡ (calls, b)
      → kcom_handle_irqs m irq_no true answer ≡ (
          (if b then done (enable_line ∷ [], m) else handle_spurious m irq_no c) >>= λ end.
          done (inc_intr ∷ disable_line ∷ send_eoi ∷ (calls ++ (end.0 ++ (dec_intr ∷ []))), end.1))
  unfolding kcom_handle_irqs
  handle_by_calls m calls b k e =
      let exists : ltb irq_no nr_irqs ≡ true = lt→ltb irq_no nr_irqs there in
      rw
        (
          exists,
          k,
          there_if_works c.disable irq_no works.1,
          there_if_works c.enable irq_no works.0,
          there_if_works c.send_eoi irq_no works.2,
          works.1,
          works.2,
          e,
          works.0,
        )
        refl

  -- With a controller whose operations succeed, the line is closed, the handlers are called in the order of
  -- their registration up to the first one that handles the interrupt, and the line is opened again;
  -- nothing else changes.
  pub kcom_handle_irqs-handled :
      (m : IrqManager) (pre : List IrqHandler) (h : IrqHandler) (post : List IrqHandler)
      → (m.entries irq_no).controller ≡ some c
      → (m.entries irq_no).hdlr_que ≡ pre ++ (h ∷ post)
      → AllNext answer pre
      → answer h ≡ handled
      → kcom_handle_irqs m irq_no true answer
        ≡ done (
          inc_intr
              ∷ disable_line
              ∷ send_eoi
              ∷ (calls_of (multi_of m) (pre ++ (h ∷ [])) ++ (enable_line ∷ dec_intr ∷ [])),
          m,
        )
  kcom_handle_irqs-handled m pre h post k q a e =
      handle_by_calls m (calls_of (multi_of m) (pre ++ (h ∷ []))) true k (
        ap (call_handlers answer (multi_of m)) q
        ∙ call_handlers-handled answer (multi_of m) pre h post a e)

  -- the entry of the line after one interrupt that no handler handles
  abbrev counted : IrqManager → IrqEntry
  counted m = record (m.entries irq_no) {
    spurious_cnt = ((m.entries irq_no).spurious_cnt + 1) % 2 ^ 64;
  }

  handle-next :
      (m : IrqManager)
      → (m.entries irq_no).controller ≡ some c
      → AllNext answer (m.entries irq_no).hdlr_que
      → (acts : List Act) × (m' : IrqManager) × (kcom_handle_irqs m irq_no true answer
          ≡ done (acts, m'))
        × (m'.entries irq_no ≡ counted m)
        × (m'.spurious_mask ≡ (
            if ((m.entries irq_no).spurious_cnt + 1) % 2 ^ 64 == spurious_intr_threshold
            then set_bit m.spurious_mask irq_no
            else m.spurious_mask))
  unfolding handle_spurious
  handle-next m k a =
      let calls =
        handle_by_calls m (calls_of (multi_of m) (m.entries irq_no).hdlr_que) false k
          (call_handlers-next answer (multi_of m) (m.entries irq_no).hdlr_que a) in
      let it : (irq_no == irq_no) ≡ true = ground arith in
      elim (Bool-cases
        (((m.entries irq_no).spurious_cnt + 1) % 2 ^ 64 == spurious_intr_threshold)) [
          | inl t ↦
              rw (calls, t, works.1)
                (_, _, refl, ap (λ b. if b then counted m else m.entries irq_no) it, refl)
          | inr t ↦
              rw (calls, t, works.0)
                (_, _, refl, ap (λ b. if b then counted m else m.entries irq_no) it, refl)
        ]

  abbrev pub handle_times : ℕ → IrqManager → Exec IrqManager
  handle_times zero m = done m
  handle_times (suc n) m = kcom_handle_irqs m irq_no true answer >>= λ r. handle_times n r.1

  -- With a controller whose operations succeed and handlers that all pass an interrupt on, on a line that
  -- is in the mask of spurious interrupts just where its count is 64: as long as the count does not go
  -- beyond 64, n interrupts add n to it, and the line is in the mask afterwards just where it is 64.
  pub handle_times-spurious :
      (n : ℕ) (m : IrqManager)
      → n + (m.entries irq_no).spurious_cnt ≤ spurious_intr_threshold
      → (m.entries irq_no).controller ≡ some c
      → AllNext answer (m.entries irq_no).hdlr_que
      → digit m.spurious_mask irq_no ≡ ((m.entries irq_no).spurious_cnt == spurious_intr_threshold)
      → (m' : IrqManager) × (handle_times n m ≡ done m')
        × ((m'.entries irq_no).spurious_cnt ≡ n + (m.entries irq_no).spurious_cnt)
        × (digit m'.spurious_mask irq_no
            ≡ (n + (m.entries irq_no).spurious_cnt == spurious_intr_threshold))
  handle_times-spurious zero m h k a d = (m, refl, omega arith, ground (arith, d))
  handle_times-spurious (suc n) m h k a d =
      let (acts, m', e, ent, mask) = handle-next m k a in
      let cnt : (m'.entries irq_no).spurious_cnt ≡ (m.entries irq_no).spurious_cnt + 1 =
        ap (λ x. x.spurious_cnt) ent ∙ omega arith in
      let bit : digit m'.spurious_mask irq_no
          ≡ ((m'.entries irq_no).spurious_cnt == spurious_intr_threshold) =
        ap (λ w. digit w irq_no) mask
        ∙ digit-counted m.spurious_mask irq_no (m.entries irq_no).spurious_cnt (omega arith) d
        ∙ ap (λ x. x == spurious_intr_threshold) (sym cnt) in
      let (m'', run, cnt', bit') =
        handle_times-spurious n m' (omega (arith, cnt)) (ap (λ x. x.controller) ent ∙ k)
          (subst (AllNext answer) (sym (ap (λ x. x.hdlr_que) ent)) a) bit in
      let total : n + (m'.entries irq_no).spurious_cnt ≡ suc n + (m.entries irq_no).spurious_cnt =
        omega (arith, cnt) in
      (m'', rw e run, cnt' ∙ total, bit' ∙ ap (λ x. x == spurious_intr_threshold) total)
