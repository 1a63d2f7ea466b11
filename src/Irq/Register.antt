-- ===== src/Irq/Register.antt =====
-- irq/irq.c: registering and unregistering handlers and controllers.
use yatos.Prelude.{
  ℕ, ◌<◌, ◌≡◌, refl, sym, ap, ◌∙◌, inl, inr, Bool, true, false, not, ◌&&◌, ltb, Bool-cases, lt→ltb,
  List, [], ◌∷◌, some, Option-cases, Exec, done, ◌>>=◌, Rc, ok, enomem, ebusy, eperm, enoent,
}
use mathlib.Core.Path.{subst}
use yatos.Bits.{test_bit, set_bit, clear_bit}
use yatos.Irq.{
  nr_irqs, exclusive, IrqCntlr, IrqHandler, IrqEntry, IrqManager, put_entry, irq_init_subsys,
  irq_set_mask, irq_unset_mask, is_empty, is_irq_handler_installed, unregister_loop,
  irq_register_irq_handler, irq_unregister_irq_handler, kcom_irq_register_controller,
  kcom_irq_unregister_controller,
}
use yatos.Irq.Masks.{
  Distinct, IsValid, irq_init_subsys-IsValid, set_bit-here, set_bit-other, clear_bit-here,
  clear_bit-other, put-IsValid, Distinct-append, is_empty-append, unregister-Distinct,
}

-- The calls that change a line's handlers and controller.
pub data Call : Type 0 where
  register : (irq_no handler iflags data_of : ℕ) → (memory : Bool) → Call
  unregister : (irq_no handler : ℕ) → Call
  register_controller : ℕ → IrqCntlr → Call
  unregister_controller : ℕ → Call

abbrev pub line_of : Call → ℕ
line_of (register i h fl d mem) = i
line_of (unregister i h) = i
line_of (register_controller i c) = i
line_of (unregister_controller i) = i

abbrev pub run_call : IrqManager → Call → Exec (Rc × IrqManager)
run_call m (register i h fl d mem) = irq_register_irq_handler m i h fl d mem
run_call m (unregister i h) = irq_unregister_irq_handler m i h
run_call m (register_controller i c) = kcom_irq_register_controller m i c
run_call m (unregister_controller i) = kcom_irq_unregister_controller m i

abbrev pub run_calls : IrqManager → List Call → Exec IrqManager
run_calls m [] = done m
run_calls m (c ∷ cs) = run_call m c >>= λ r. run_calls r.1 cs

abbrev pub LinesExist : List Call → Type 0
LinesExist [] = Unit {0}
LinesExist (c ∷ cs) = (line_of c < nr_irqs) × LinesExist cs

was_not_empty :
    (hs l : List IrqHandler) (f : ℕ) → unregister_loop hs f ≡ some l → is_empty hs ≡ false
unfolding unregister_loop
was_not_empty [] l f e = absurd cc
was_not_empty (x ∷ hs) l f e = refl

abbrev pub Ends : Exec (Rc × IrqManager) → Type 0
Ends x = (r : Rc) × (m : IrqManager) × (x ≡ done (r, m)) × IsValid m

module _ (m : IrqManager) (v : IsValid m) (irq_no : ℕ) (there : irq_no < nr_irqs) where
  abbrev ent : IrqEntry
  ent = m.entries irq_no

  pub exists : ltb irq_no nr_irqs ≡ true
  exists = lt→ltb irq_no nr_irqs there

  -- A write that keeps the handlers keeps the invariant.
  same_handlers-IsValid :
      (e : IrqEntry) → e.hdlr_que ≡ ent.hdlr_que → IsValid (put_entry m irq_no e)
  same_handlers-IsValid e k =
      put-IsValid m irq_no e m.mask v (subst Distinct (sym k) (v irq_no there).0)
        ((v irq_no there).1 ∙ ap is_empty (sym k)) (λ q h n. refl)

  pub register-Ends :
      (handler iflags data_of : ℕ) (memory : Bool)
      → Ends (irq_register_irq_handler m irq_no handler iflags data_of memory)
  unfolding irq_register_irq_handler irq_unset_mask
  register-Ends handler iflags data_of false = rw exists (enomem, m, refl, v)
  register-Ends handler iflags data_of true =
      elim (Bool-cases (is_irq_handler_installed ent.hdlr_que handler)) [
        | inl i ↦ rw (exists, i) (ebusy, m, refl, v)
        | inr i ↦
            elim (Bool-cases (not (test_bit iflags exclusive) && test_bit ent.iflags exclusive)) [
              | inl x ↦ rw (exists, i, x) (eperm, m, refl, v)
              | inr x ↦
                  rw (exists, i, x)
                    (
                      ok,
                      _,
                      refl,
                      put-IsValid m irq_no _ (clear_bit m.mask irq_no) v
                          (Distinct-append ent.hdlr_que _ (v irq_no there).0 i)
                          (clear_bit-here m.mask irq_no there
                            ∙ sym (is_empty-append ent.hdlr_que _))
                          (λ q h n. clear_bit-other m.mask irq_no q there h n),
                    )
            ]
      ]

  pub unregister-Ends : (handler : ℕ) → Ends (irq_unregister_irq_handler m irq_no handler)
  unfolding irq_unregister_irq_handler irq_set_mask
  unregister-Ends handler = elim (Option-cases (unregister_loop ent.hdlr_que handler)) [
    | inl e ↦ rw (exists, e) (enoent, m, refl, v)
    | inr (l, e) ↦ elim (Bool-cases (is_empty l)) [
      | inl z ↦
          rw (exists, e, z, exists)
            (
              ok,
              _,
              refl,
              put-IsValid m irq_no _ (set_bit m.mask irq_no) v
                  (unregister-Distinct ent.hdlr_que l handler e (v irq_no there).0).0
                  (set_bit-here m.mask irq_no ∙ sym z) (λ q h n. set_bit-other m.mask irq_no q n),
            )
      | inr z ↦
          rw (exists, e, z)
            (
              ok,
              _,
              refl,
              put-IsValid m irq_no _ m.mask v
                  (unregister-Distinct ent.hdlr_que l handler e (v irq_no there).0).0
                  ((v irq_no there).1 ∙ was_not_empty ent.hdlr_que l handler e ∙ sym z)
                  (λ q h n. refl),
            )
    ]
  ]

  register_controller-Ends : (c : IrqCntlr) → Ends (kcom_irq_register_controller m irq_no c)
  unfolding kcom_irq_register_controller
  register_controller-Ends c = elim (Option-cases ent.controller) [
    | inl e ↦ rw (exists, e) (ok, _, refl, same_handlers-IsValid _ refl)
    | inr (d, e) ↦ rw (exists, e) (ebusy, m, refl, v)
  ]

  unregister_controller-Ends : Ends (kcom_irq_unregister_controller m irq_no)
  unfolding kcom_irq_unregister_controller
  unregister_controller-Ends = elim (Option-cases ent.controller) [
    | inl e ↦ rw (exists, e) (enoent, m, refl, v)
    | inr (d, e) ↦ rw (exists, e) (ok, _, refl, same_handlers-IsValid _ refl)
  ]

call-Ends : (m : IrqManager) → IsValid m → (c : Call) → line_of c < nr_irqs → Ends (run_call m c)
call-Ends m v (register i h fl d mem) there = register-Ends m v i there h fl d mem
call-Ends m v (unregister i h) there = unregister-Ends m v i there h
call-Ends m v (register_controller i c) there = register_controller-Ends m v i there c
call-Ends m v (unregister_controller i) there = unregister_controller-Ends m v i there

calls-IsValid :
    (m : IrqManager)
    → IsValid m
    → (cs : List Call) → LinesExist cs
    → (m' : IrqManager) × (run_calls m cs ≡ done m') × IsValid m'
calls-IsValid m v [] there = (m, refl, v)
calls-IsValid m v (c ∷ cs) there =
    let (r, m', e, v') = call-Ends m v c there.0 in rw e (calls-IsValid m' v' cs there.1)

-- After the initialisation, any calls on existing lines end; then no function is registered twice on a
-- line, and a line is masked just where it has no handler.
pub run_calls-IsValid :
    (pic_mask : ℕ) (cs : List Call)
    → LinesExist cs
    → (m : IrqManager) × (run_calls (irq_init_subsys pic_mask) cs ≡ done m) × IsValid m
run_calls-IsValid pic_mask cs there =
    calls-IsValid (irq_init_subsys pic_mask) (irq_init_subsys-IsValid pic_mask) cs there
