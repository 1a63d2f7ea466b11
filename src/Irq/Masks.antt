-- ===== src/Irq/Masks.antt =====
-- irq/irq.c: the lines that are masked, and the handlers of a line.
use native.Mathlib.Nat.{one-le-pow}
use yatos.Prelude.{
  ℕ, zero, suc, ◌-◌, ◌/◌, ◌^◌, ◌<◌, ◌≡◌, ◌≢◌, ◌⊎◌, refl, sym, ap, ◌∙◌, inl, inr, arith, Bool, true,
  false, ◌==◌, if◌then◌else◌, Bool-cases, List, [], ◌∷◌, ◌++◌, Option, none, some,
}
use yatos.Bits.{digit, set_bit, clear_bit}
use yatos.Bits.Laws.{double, digit-set_bit, digit-clear_bit}
use yatos.Irq.{
  nr_irqs, IrqHandler, IrqEntry, IrqManager, put_entry, irq_init_subsys, is_empty,
  is_irq_handler_installed, unregister_loop,
}

-- No two handlers of a line have the same function.
abbrev pub Distinct : List IrqHandler → Type 0
Distinct [] = Unit {0}
Distinct (h ∷ hs) = (is_irq_handler_installed hs h.handler ≡ false) × Distinct hs

-- The handlers of every line are distinct, and the line is masked just where it has none.
abbrev pub IsValid : IrqManager → Type 0
IsValid m =
    (q : ℕ)
    → q < nr_irqs
    → Distinct (m.entries q).hdlr_que × (digit m.mask q ≡ is_empty (m.entries q).hdlr_que)

digit-ones : (n q : ℕ) → q < n → digit (2 ^ n - 1) q ≡ true
digit-ones zero q h = absurd (omega arith)
digit-ones (suc n) zero h = ground (arith, double n, one-le-pow n 2)
digit-ones (suc n) (suc q) h =
    let half : (2 ^ suc n - 1) / 2 ≡ 2 ^ n - 1 = omega (arith, double n, one-le-pow n 2) in
    rw half (digit-ones n q (omega arith))

pub irq_init_subsys-IsValid : (pic_mask : ℕ) → IsValid (irq_init_subsys pic_mask)
unfolding irq_init_subsys
irq_init_subsys-IsValid pic_mask q h = (tt, digit-ones 64 q (omega arith))

-- Masking a line and taking its mask away, for the bit of the line and for the others.
pub set_bit-here : (w p : ℕ) → digit (set_bit w p) p ≡ true
set_bit-here w p =
    let it : (p == p) ≡ true = ground arith in
    digit-set_bit w p p ∙ ap (λ b. if b then true else digit w p) it

pub set_bit-other : (w p q : ℕ) → q ≢ p → digit (set_bit w p) q ≡ digit w q
set_bit-other w p q n =
    let other : (p == q) ≡ false = ground arith in
    digit-set_bit w p q ∙ ap (λ b. if b then true else digit w q) other

pub clear_bit-here : (w p : ℕ) → p < nr_irqs → digit (clear_bit w p) p ≡ false
clear_bit-here w p h =
    let it : (p == p) ≡ true = ground arith in
    digit-clear_bit w p p (omega arith) (omega arith) ∙ ap (λ b. if b then false else digit w p) it

pub clear_bit-other :
    (w p q : ℕ) → p < nr_irqs → q < nr_irqs → q ≢ p → digit (clear_bit w p) q ≡ digit w q
clear_bit-other w p q hp hq n =
    let other : (p == q) ≡ false = ground arith in
    digit-clear_bit w p q (omega arith) (omega arith)
    ∙ ap (λ b. if b then false else digit w q) other

-- A write to one entry, with its bit of the mask, keeps the others.
pub put-IsValid :
    (m : IrqManager) (k : ℕ) (e : IrqEntry) (w : ℕ)
    → IsValid m
    → Distinct e.hdlr_que
    → digit w k ≡ is_empty e.hdlr_que
    → ((q : ℕ) → q < nr_irqs → q ≢ k → digit w q ≡ digit m.mask q)
    → IsValid (record (put_entry m k e) { mask = w })
put-IsValid m k e w v d this others q h = elim (Bool-cases (q == k)) [
  | inl i ↦ let it : q ≡ k = ground arith in rw i (d, ap (digit w) it ∙ this)
  | inr i ↦ let other : q ≢ k = λ x. ground arith in rw i ((v q h).0, others q h other ∙ (v q h).1)
]

-- A line without a handler that has the function f: neither has the first one it, nor the others.
pub not_installed :
    (x : IrqHandler) (hs : List IrqHandler) (f : ℕ)
    → is_irq_handler_installed (x ∷ hs) f ≡ false
    → ((x.handler == f) ≡ false) × (is_irq_handler_installed hs f ≡ false)
unfolding is_irq_handler_installed
not_installed x hs f = by_test (x.handler == f)
  where
    by_test :
        (b : Bool)
        → (if b then true else is_irq_handler_installed hs f) ≡ false
        → (b ≡ false) × (is_irq_handler_installed hs f ≡ false)
    by_test true i = absurd (ground (arith, i))
    by_test false i = (refl, i)

pub installed-append :
    (hs : List IrqHandler) (h : IrqHandler) (f : ℕ)
    → is_irq_handler_installed hs f ≡ false
    → (h.handler == f) ≡ false
    → is_irq_handler_installed (hs ++ (h ∷ [])) f ≡ false
unfolding is_irq_handler_installed
installed-append [] h f i n = rw n refl
installed-append (x ∷ hs) h f i n =
    let (e, rest) = not_installed x hs f i in rw e (installed-append hs h f rest n)

pub Distinct-append :
    (hs : List IrqHandler) (h : IrqHandler)
    → Distinct hs
    → is_irq_handler_installed hs h.handler ≡ false
    → Distinct (hs ++ (h ∷ []))
unfolding is_irq_handler_installed
Distinct-append [] h d i = (refl, tt)
Distinct-append (x ∷ hs) h d i =
    let (e, rest) = not_installed x hs h.handler i in
    let other : (h.handler == x.handler) ≡ false = ground (arith, e) in
    (installed-append hs h x.handler d.0 other, Distinct-append hs h d.1 rest)

pub is_empty-append : (hs : List IrqHandler) (h : IrqHandler) → is_empty (hs ++ (h ∷ [])) ≡ false
is_empty-append [] h = refl
is_empty-append (x ∷ hs) h = refl

-- How a handler leaves the queue: it is the first one, or it leaves the rest.
Removal : IrqHandler → List IrqHandler → List IrqHandler → ℕ → Type 0
Removal x hs l f =
    ((x.handler ≡ f) × (l ≡ hs))
    ⊎ (((x.handler == f) ≡ false)
        × (l' : List IrqHandler) × (unregister_loop hs f ≡ some l')
        × (l ≡ x ∷ l'))

Removal-cases :
    (x : IrqHandler) (hs l : List IrqHandler) (f : ℕ)
    → unregister_loop (x ∷ hs) f ≡ some l
    → Removal x hs l f
unfolding unregister_loop Removal
Removal-cases x hs l f e = by_test (x.handler == f) refl (unregister_loop hs f) refl e
  where
    by_test :
        (b : Bool)
        → (x.handler == f) ≡ b
        → (o : Option (List IrqHandler)) → unregister_loop hs f ≡ o
        → (if b then some hs else elim o [ none ↦ none | some k ↦ some (x ∷ k) ]) ≡ some l
        → Removal x hs l f
    by_test true t o u e = inl (ground (arith, t), cc)
    by_test false t none u e = absurd cc
    by_test false t (some k) u e = inr (t, k, u, cc)

-- The queue without the handler of f: the handlers in it were in the queue,
pub installed-unregister :
    (hs l : List IrqHandler) (f g : ℕ)
    → unregister_loop hs f ≡ some l
    → is_irq_handler_installed hs g ≡ false
    → is_irq_handler_installed l g ≡ false
unfolding unregister_loop is_irq_handler_installed Removal
installed-unregister [] l f g e i = absurd cc
installed-unregister (x ∷ hs) l f g e i = elim (Removal-cases x hs l f e) [
  | inl (it, k) ↦ rw k (not_installed x hs g i).1
  | inr (t, l', u, k) ↦
      let (t', rest) = not_installed x hs g i in rw (k, t') (installed-unregister hs l' f g u rest)
]

-- they are distinct, and that of f is not among them.
pub unregister-Distinct :
    (hs l : List IrqHandler) (f : ℕ)
    → unregister_loop hs f ≡ some l
    → Distinct hs
    → Distinct l × (is_irq_handler_installed l f ≡ false)
unfolding unregister_loop is_irq_handler_installed Removal
unregister-Distinct [] l f e d = absurd cc
unregister-Distinct (x ∷ hs) l f e d = elim (Removal-cases x hs l f e) [
  | inl (it, k) ↦ rw k (d.1, ap (is_irq_handler_installed hs) (sym it) ∙ d.0)
  | inr (t, l', u, k) ↦
      let (d', out) = unregister-Distinct hs l' f u d.1 in
      rw (k, t) ((installed-unregister hs l' f x.handler u d.0, d'), out)
]

-- A handler leaves the queue just where it is in it,
pub unregister-none :
    (hs : List IrqHandler) (f : ℕ)
    → is_irq_handler_installed hs f ≡ false
    → unregister_loop hs f ≡ none
unfolding unregister_loop is_irq_handler_installed
unregister-none [] f i = refl
unregister-none (x ∷ hs) f i =
    let (t, rest) = not_installed x hs f i in rw (t, unregister-none hs f rest) refl

-- and the one that was registered last leaves the queue as it was.
pub unregister-append :
    (hs : List IrqHandler) (h : IrqHandler)
    → is_irq_handler_installed hs h.handler ≡ false
    → unregister_loop (hs ++ (h ∷ [])) h.handler ≡ some hs
unfolding unregister_loop is_irq_handler_installed
unregister-append [] h i = let it : (h.handler == h.handler) ≡ true = ground arith in rw it refl
unregister-append (x ∷ hs) h i =
    let (t, rest) = not_installed x hs h.handler i in rw (t, unregister-append hs h rest) refl
