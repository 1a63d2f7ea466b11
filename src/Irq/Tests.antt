-- ===== src/Irq/Tests.antt =====
-- Runs of the interrupt lines.
use yatos.Prelude.{
  ◌-◌, ◌^◌, ◌==◌, if◌then◌else◌, ◌≡◌, refl, arith, true, false, List, [], ◌∷◌, some, none, done, ok,
}
use yatos.Bits.{digit, test_bit, set_bit, clear_bit}
use yatos.Irq.{
  IhandlerRes, handled, next, IrqCntlr, IrqHandler, IrqManager, put_entry, inc_intr, dec_intr,
  disable_line, send_eoi, enable_line, call_handler, irq_init_subsys, irq_unset_mask,
  irq_register_irq_handler, irq_unregister_irq_handler, is_irq_handler_installed, kcom_handle_irqs,
}
use yatos.Irq.Masks.{IsValid, irq_init_subsys-IsValid}
use yatos.Irq.Register.{
  Call, register, unregister, register_controller, unregister_controller, run_calls,
  run_calls-IsValid,
}
use yatos.Irq.Undo.{unregister-register}
use yatos.Irq.Handle.{kcom_handle_irqs-handled}

abbrev i8259 : IrqCntlr
i8259 = record {
  enable = some (λ i. true);
  disable = some (λ i. true);
  send_eoi = some (λ i. true);
}

abbrev some_calls : List Call
some_calls =
    register_controller 0 i8259
    ∷ register 0 100 0 7 true
    ∷ register 0 100 0 7 true
    ∷ register 3 200 1 8 true
    ∷ unregister 0 100
    ∷ unregister_controller 3
    ∷ []

run_calls-IsValid_example :
    (m : IrqManager) × (run_calls (irq_init_subsys 0) some_calls ≡ done m) × IsValid m
run_calls-IsValid_example =
    run_calls-IsValid 0 some_calls
      (omega arith, (omega arith, (omega arith, (omega arith, (omega arith, (omega arith, tt))))))

-- the lines after an exclusive handler was registered on line 5
abbrev with_exclusive : IrqManager
with_exclusive =
    record (put_entry (irq_init_subsys 0) 5 (record {
      iflags = set_bit 0 0;
      spurious_cnt = 0;
      hdlr_que = record { iflags = 1; private_inf = 9; handler = 300 } ∷ [];
      controller = none;
    })) {
      mask = clear_bit (irq_init_subsys 0).mask 5;
      pic_mask = clear_bit (irq_init_subsys 0).mask 5;
    }

registered_5 :
    irq_register_irq_handler (irq_init_subsys 0) 5 300 1 9 true ≡ done (ok, with_exclusive)
unfolding irq_register_irq_handler irq_unset_mask is_irq_handler_installed irq_init_subsys test_bit
    clear_bit
registered_5 = refl

unregister-register_example :
    (m'' : IrqManager) × (irq_unregister_irq_handler with_exclusive 5 300 ≡ done (ok, m''))
    × ((m''.entries 5).hdlr_que ≡ ((irq_init_subsys 0).entries 5).hdlr_que)
    × (digit m''.mask 5 ≡ digit (irq_init_subsys 0).mask 5)
unregister-register_example =
    unregister-register (irq_init_subsys 0) (irq_init_subsys-IsValid 0) 5 (omega arith) 300 1 9
      with_exclusive registered_5 5 (omega arith)

exclusive_1 : test_bit 1 0 ≡ true
unfolding test_bit
exclusive_1 = refl

shared_0 : test_bit 0 0 ≡ false
unfolding test_bit
shared_0 = refl

none_installed : is_irq_handler_installed ((irq_init_subsys 0).entries 5).hdlr_que 301 ≡ false
unfolding is_irq_handler_installed irq_init_subsys
none_installed = refl

-- line 0 with two handlers, of which the second one handles the interrupt
abbrev first_hdlr : IrqHandler
first_hdlr = record { iflags = 0; private_inf = 7; handler = 100 }

abbrev second_hdlr : IrqHandler
second_hdlr = record { iflags = 0; private_inf = 8; handler = 101 }

abbrev two_handlers : IrqManager
two_handlers = record {
  mask = 2 ^ 64 - 2;
  spurious_mask = 0;
  entries = λ i. record {
    iflags = 0;
    spurious_cnt = 0;
    hdlr_que = first_hdlr ∷ second_hdlr ∷ [];
    controller = some i8259;
  };
  pic_mask = 2 ^ 64 - 2;
}

abbrev second_answers : IrqHandler → IhandlerRes
second_answers h = if h.handler == 101 then handled else next

kcom_handle_irqs-handled_example :
    kcom_handle_irqs two_handlers 0 true second_answers
    ≡ done (
      inc_intr
          ∷ disable_line
          ∷ send_eoi
          ∷ call_handler 100 true
          ∷ call_handler 101 true
          ∷ enable_line
          ∷ dec_intr
          ∷ [],
      two_handlers,
    )
unfolding test_bit
kcom_handle_irqs-handled_example =
    kcom_handle_irqs-handled 0 (omega arith) i8259 (refl, refl, refl) second_answers two_handlers
      (first_hdlr ∷ []) second_hdlr [] refl refl (refl, tt) refl
