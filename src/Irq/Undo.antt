-- ===== src/Irq/Undo.antt =====
-- irq/irq.c: unregistering a handler after it was registered.
use Prim.Native.Nat.{bit_or}
use mathlib.Core.Path.{subst}
use yatos.Prelude.{
  ℕ, ◌<◌, ◌≡◌, refl, sym, ap, ◌∙◌, inl, inr, arith, true, false, not, ◌&&◌, ◌==◌, if◌then◌else◌,
  Bool-cases, [], ◌∷◌, ◌++◌, some, Exec, done, Rc, ok, ebusy, eperm,
}
use yatos.Bits.{digit, test_bit, set_bit, clear_bit}
use yatos.Bits.Laws.{test_bit-eq-digit}
use yatos.Irq.{
  nr_irqs, exclusive, IrqHandler, IrqEntry, IrqManager, put_entry, irq_set_mask, irq_unset_mask,
  is_empty, is_irq_handler_installed, unregister_loop, irq_register_irq_handler,
  irq_unregister_irq_handler,
}
use yatos.Irq.Masks.{IsValid, set_bit-here, unregister-append}
use yatos.Irq.Register.{exists, register-Ends, unregister-Ends}

same_state :
    (a b : IrqManager) (r : Rc)
    → ◌≡◌ {A = Exec (Rc × IrqManager)} (done (r, a)) (done (ok, b))
    → a ≡ b
same_state a b r h = cc

-- The entry of a line after a registration on it.
abbrev entry_with : IrqEntry → IrqHandler → IrqEntry
entry_with ent h = record ent {
  iflags = if test_bit h.iflags exclusive then set_bit ent.iflags exclusive else ent.iflags;
  hdlr_que = ent.hdlr_que ++ (h ∷ []);
}

module _ (m : IrqManager) (v : IsValid m) (irq_no : ℕ) (there : irq_no < nr_irqs)
    (handler iflags data_of : ℕ) (m' : IrqManager)
    (registered : irq_register_irq_handler m irq_no handler iflags data_of true
      ≡ done (ok, m')) where
  abbrev added : IrqHandler
  added = record { iflags = iflags; private_inf = data_of; handler = handler }

  -- What a registration has done that has answered 0.
  after_register :
      (is_irq_handler_installed (m.entries irq_no).hdlr_que handler ≡ false)
      × ((q : ℕ)
          → m'.entries q
            ≡ (if q == irq_no then entry_with (m.entries irq_no) added else m.entries q))
  unfolding irq_register_irq_handler irq_unset_mask
  after_register =
      elim (Bool-cases (is_irq_handler_installed (m.entries irq_no).hdlr_que handler)) [
        | inl i ↦ absurd (cc (registered, busy i))
        | inr i ↦
            elim (Bool-cases
              (not (test_bit iflags exclusive) && test_bit (m.entries irq_no).iflags exclusive)) [
                | inl x ↦ absurd (cc (registered, refused i x))
                | inr x ↦ (
                  i,
                  λ q. ap (λ r. r.entries q) (same_state m' _ ok (sym registered ∙ accepted i x)),
                )
              ]
      ]
    where
      busy :
          is_irq_handler_installed (m.entries irq_no).hdlr_que handler ≡ true
          → irq_register_irq_handler m irq_no handler iflags data_of true ≡ done (ebusy, m)
      busy i = rw (exists m v irq_no there, i) refl

      refused :
          is_irq_handler_installed (m.entries irq_no).hdlr_que handler ≡ false
          → not (test_bit iflags exclusive) && test_bit (m.entries irq_no).iflags exclusive ≡ true
          → irq_register_irq_handler m irq_no handler iflags data_of true ≡ done (eperm, m)
      refused i x = rw (exists m v irq_no there, i, x) refl

      accepted :
          is_irq_handler_installed (m.entries irq_no).hdlr_que handler ≡ false
          → not (test_bit iflags exclusive) && test_bit (m.entries irq_no).iflags exclusive ≡ false
          → irq_register_irq_handler m irq_no handler iflags data_of true
            ≡ done (
              ok,
              record (put_entry m irq_no (entry_with (m.entries irq_no) added)) {
                mask = clear_bit m.mask irq_no;
                pic_mask = bit_or (clear_bit m.mask irq_no) m.spurious_mask;
              },
            )
      accepted i x = rw (exists m v irq_no there, i, x) refl

  valid' : IsValid m'
  valid' =
      let (r, n, e, v') = register-Ends m v irq_no there handler iflags data_of true in
      subst IsValid (same_state n m' r (sym e ∙ registered)) v'

  -- The entry of the line, with the queue that unregistering leaves.
  abbrev undone : IrqEntry
  undone = record (entry_with (m.entries irq_no) added) { hdlr_que = (m.entries irq_no).hdlr_que }

  line_entry : m'.entries irq_no ≡ entry_with (m.entries irq_no) added
  line_entry =
      let it : (irq_no == irq_no) ≡ true = ground arith in
      after_register.1 irq_no
      ∙ ap (λ b. if b then entry_with (m.entries irq_no) added else m.entries irq_no) it

  abbrev removed : ℕ → IrqEntry
  removed i =
      if i == irq_no
      then record (m'.entries irq_no) { hdlr_que = (m.entries irq_no).hdlr_que }
      else m'.entries i

  removed-here : removed irq_no ≡ undone
  removed-here =
      let it : (irq_no == irq_no) ≡ true = ground arith in
      rw it (
        ap {A = IrqEntry} {B = IrqEntry} (λ x. record x { hdlr_que = (m.entries irq_no).hdlr_que })
          line_entry)

  removed-other : (q : ℕ) → (q == irq_no) ≡ false → removed q ≡ m.entries q
  removed-other q n = rw n (
      after_register.1 q
      ∙ ap (λ b. if b then entry_with (m.entries irq_no) added else m.entries q) n)

  after_unregister :
      (m'' : IrqManager) × (irq_unregister_irq_handler m' irq_no handler ≡ done (ok, m''))
      × (m''.entries irq_no ≡ undone)
      × ((q : ℕ) → (q == irq_no) ≡ false → m''.entries q ≡ m.entries q)
  unfolding irq_unregister_irq_handler irq_set_mask
  after_unregister =
      let loop : unregister_loop (m'.entries irq_no).hdlr_que handler
          ≡ some (m.entries irq_no).hdlr_que =
        ap (λ e. unregister_loop e.hdlr_que handler) line_entry
        ∙ unregister-append (m.entries irq_no).hdlr_que added after_register.0 in
      elim (Bool-cases (is_empty (m.entries irq_no).hdlr_que)) [
        | inl z ↦
            rw (exists m v irq_no there, loop, z, exists m v irq_no there)
              (_, refl, removed-here, removed-other)
        | inr z ↦ rw (exists m v irq_no there, loop, z) (_, refl, removed-here, removed-other)
      ]

  -- On valid lines, unregistering a handler whose registration answered 0 answers 0, and leaves the handlers of every line and the
  -- masked lines as they were before the registration.
  pub unregister-register :
      (q : ℕ)
      → q < nr_irqs
      → (m'' : IrqManager) × (irq_unregister_irq_handler m' irq_no handler ≡ done (ok, m''))
        × ((m''.entries q).hdlr_que ≡ (m.entries q).hdlr_que)
        × (digit m''.mask q ≡ digit m.mask q)
  unregister-register q h =
      let (m'', e, this, others) = after_unregister in
      let (r, n, e', v') = unregister-Ends m' valid' irq_no there handler in
      let v'' : IsValid m'' = subst IsValid (same_state n m'' r (sym e' ∙ e)) v' in
      let queues : (m''.entries q).hdlr_que ≡ (m.entries q).hdlr_que =
        elim (Bool-cases (q == irq_no)) [
          | inl i ↦
              let it : q ≡ irq_no = ground arith in
              ap (λ x. (m''.entries x).hdlr_que) it
              ∙ ap (λ x. x.hdlr_que) this
              ∙ ap (λ x. (m.entries x).hdlr_que) (sym it)
          | inr i ↦ ap (λ x. x.hdlr_que) (others q i)
        ] in
      (m'', e, queues, (v'' q h).1 ∙ ap is_empty queues ∙ sym (v q h).1)

  -- The exclusive flag of the line stays: on valid lines, after an exclusive handler was registered and
  -- unregistered, a shared handler that is not on the line yet is refused with -EPERM.
  pub exclusive_stays :
      test_bit iflags exclusive ≡ true
      → (g fl d : ℕ) → is_irq_handler_installed (m.entries irq_no).hdlr_que g ≡ false
      → test_bit fl exclusive ≡ false
      → (m'' : IrqManager) × (irq_unregister_irq_handler m' irq_no handler ≡ done (ok, m''))
        × (irq_register_irq_handler m'' irq_no g fl d true ≡ done (eperm, m''))
  unfolding irq_register_irq_handler
  exclusive_stays x g fl d i shared =
      let (m'', e, this, others) = after_unregister in
      let flag : test_bit (m''.entries irq_no).iflags exclusive ≡ true =
        ap (λ y. test_bit y.iflags exclusive) this
        ∙ ap
            (λ b.
              test_bit
                (if b
                  then set_bit (m.entries irq_no).iflags exclusive
                  else (m.entries irq_no).iflags)
                exclusive)
            x
        ∙ test_bit-eq-digit _ exclusive
        ∙ set_bit-here (m.entries irq_no).iflags exclusive in
      let absent : is_irq_handler_installed (m''.entries irq_no).hdlr_que g ≡ false =
        ap (λ y. is_irq_handler_installed y.hdlr_que g) this ∙ i in
      (m'', e, rw (exists m v irq_no there, absent, shared, flag) refl)
