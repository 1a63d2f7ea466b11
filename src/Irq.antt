-- ===== src/Irq.antt =====
-- irq/irq.c and include/kern/irq.h: the handlers and the controller of each interrupt line, the mask, and
-- the handling of an interrupt.
mod Masks
mod Register
mod Undo
mod Handle
mod Tests
use Prim.Native.Nat.{bit_or}
use yatos.Prelude.{
  ℕ, ◌+◌, ◌-◌, ◌%◌, ◌^◌, Bool, true, false, not, ◌&&◌, ltb, ◌==◌, if◌then◌else◌, List, [], ◌∷◌,
  ◌++◌, Option, none, some, Exec, done, stop, ◌>>=◌, ◌>>◌, kassert, Rc, ok, enomem, ebusy, eperm,
  enoent,
}
use yatos.Bits.{test_bit, set_bit, clear_bit}

abbrev pub nr_irqs : ℕ
nr_irqs = 16

abbrev pub spurious_intr_threshold : ℕ
spurious_intr_threshold = 64

-- The bit of IRQHDL_FLAG_EXCLUSIVE.
abbrev pub exclusive : ℕ
exclusive = 0

pub data IhandlerRes : Type 0 where
  handled next : IhandlerRes

-- `irq_cntlr`: its operations, each with the truth of its returning 0
pub record IrqCntlr : Type 0 where
  pub enable : Option (ℕ → Bool)
  pub disable : Option (ℕ → Bool)
  pub send_eoi : Option (ℕ → Bool)

-- `handler`: the address of the handler function
pub record IrqHandler : Type 0 where
  pub iflags : ℕ
  pub private_inf : ℕ
  pub handler : ℕ

pub record IrqEntry : Type 0 where
  pub iflags : ℕ
  pub spurious_cnt : ℕ
  pub hdlr_que : List IrqHandler
  pub controller : Option IrqCntlr

-- `irq_manager`, and the mask last given to hal_pic_update_irq_mask
pub record IrqManager : Type 0 where
  pub mask : ℕ
  pub spurious_mask : ℕ
  pub entries : ℕ → IrqEntry
  pub pic_mask : ℕ

abbrev pub put_entry : IrqManager → ℕ → IrqEntry → IrqManager
put_entry m irq_no e = record m { entries = λ i. if i == irq_no then e else m.entries i }

unfoldable pub irq_init_subsys : ℕ → IrqManager
irq_init_subsys pic_mask = record {
  mask = 2 ^ 64 - 1;
  spurious_mask = 0;
  entries = λ i. record { iflags = 0; spurious_cnt = 0; hdlr_que = []; controller = none };
  pic_mask = pic_mask;
}

unfoldable pub irq_set_mask : IrqManager → ℕ → Exec IrqManager
irq_set_mask m irq_no = do
  kassert (ltb irq_no nr_irqs)
  done (record m {
    mask = set_bit m.mask irq_no;
    pic_mask = bit_or (set_bit m.mask irq_no) m.spurious_mask;
  })

unfoldable pub irq_unset_mask : IrqManager → ℕ → Exec IrqManager
irq_unset_mask m irq_no = do
  kassert (ltb irq_no nr_irqs)
  done (record m {
    mask = clear_bit m.mask irq_no;
    pic_mask = bit_or (clear_bit m.mask irq_no) m.spurious_mask;
  })

-- The loop of is_irq_handler_installed_nolock
unfoldable pub is_irq_handler_installed : List IrqHandler → ℕ → Bool
is_irq_handler_installed [] handler = false
is_irq_handler_installed (h ∷ hs) handler =
    let rest = is_irq_handler_installed hs handler in if h.handler == handler then true else rest

-- `memory`: whether kmalloc has given the handler's record
unfoldable pub irq_register_irq_handler : IrqManager → ℕ → ℕ → ℕ → ℕ → Bool → Exec (Rc × IrqManager)
unfolding is_irq_handler_installed irq_unset_mask
irq_register_irq_handler m irq_no handler iflags data_of memory = do
  kassert (ltb irq_no nr_irqs)
  let ent = m.entries irq_no
  let hdlr : IrqHandler = record { iflags = iflags; private_inf = data_of; handler = handler }
  let flags = if test_bit iflags exclusive then set_bit ent.iflags exclusive else ent.iflags
  let added =
      put_entry m irq_no (record ent { iflags = flags; hdlr_que = ent.hdlr_que ++ (hdlr ∷ []) })
  if not memory
      then done (enomem, m)
      else if is_irq_handler_installed ent.hdlr_que handler
      then done (ebusy, m)
      else if not (test_bit iflags exclusive) && test_bit ent.iflags exclusive
      then done (eperm, m)
      else (irq_unset_mask added irq_no >>= λ m'. done (ok, m'))

-- The loop of irq_unregister_irq_handler: the queue without the handler, or `none` where it is not there
unfoldable pub unregister_loop : List IrqHandler → ℕ → Option (List IrqHandler)
unregister_loop [] handler = none
unregister_loop (h ∷ hs) handler =
    let rest = unregister_loop hs handler in
    if h.handler == handler then some hs else elim rest [ none ↦ none | some l ↦ some (h ∷ l) ]

abbrev pub is_empty : List IrqHandler → Bool
is_empty [] = true
is_empty (h ∷ hs) = false

abbrev pub after_removal : IrqManager → ℕ → Option (List IrqHandler) → Exec (Rc × IrqManager)
after_removal m irq_no none = done (enoent, m)
after_removal m irq_no (some hs) =
    let removed = put_entry m irq_no (record (m.entries irq_no) { hdlr_que = hs }) in
    if is_empty hs
    then (irq_set_mask removed irq_no >>= λ m'. done (ok, m'))
    else done (ok, removed)

unfoldable pub irq_unregister_irq_handler : IrqManager → ℕ → ℕ → Exec (Rc × IrqManager)
unfolding unregister_loop irq_set_mask
irq_unregister_irq_handler m irq_no handler = do
  kassert (ltb irq_no nr_irqs)
  after_removal m irq_no (unregister_loop (m.entries irq_no).hdlr_que handler)

unfoldable pub kcom_irq_register_controller : IrqManager → ℕ → IrqCntlr → Exec (Rc × IrqManager)
kcom_irq_register_controller m irq_no controller = do
  kassert (ltb irq_no nr_irqs)
  elim (m.entries irq_no).controller [
    | some c ↦ done (ebusy, m)
    | none ↦
        done (ok, put_entry m irq_no (record (m.entries irq_no) { controller = some controller }))
  ]

unfoldable pub kcom_irq_unregister_controller : IrqManager → ℕ → Exec (Rc × IrqManager)
kcom_irq_unregister_controller m irq_no = do
  kassert (ltb irq_no nr_irqs)
  elim (m.entries irq_no).controller [
    | none ↦ done (enoent, m)
    | some c ↦ done (ok, put_entry m irq_no (record (m.entries irq_no) { controller = none }))
  ]

-- What kcom_handle_irqs calls, in order; a handler with its address and whether the CPU takes interrupts
-- during the call
pub data Act : Type 0 where
  inc_intr dec_intr disable_line send_eoi enable_line : Act
  call_handler : ℕ → Bool → Act

abbrev pub is_handled : IhandlerRes → Bool
is_handled handled = true
is_handled next = false

-- The loop over the handlers, with the answer of each: the calls, and whether one has handled the interrupt
unfoldable pub call_handlers : (IrqHandler → IhandlerRes) → Bool → List IrqHandler → List Act × Bool
call_handlers answer multi [] = ([], false)
call_handlers answer multi (h ∷ hs) =
    let rest = call_handlers answer multi hs in
    if is_handled (answer h)
    then (call_handler h.handler multi ∷ [], true)
    else (call_handler h.handler multi ∷ rest.0, rest.1)

abbrev pub deref : Option IrqCntlr → Exec IrqCntlr
deref none = stop
deref (some c) = done c

-- `controller->f(no)` with the two assertions: `f` is there, and the call returns 0
abbrev pub operate : Option (ℕ → Bool) → ℕ → Exec (Unit {0})
operate none irq_no = stop
operate (some f) irq_no = kassert (f irq_no)

abbrev pub is_there : Option (ℕ → Bool) → Exec (Unit {0})
is_there none = stop
is_there (some f) = done tt

-- The end of kcom_handle_irqs where no handler has handled the interrupt
unfoldable pub handle_spurious : IrqManager → ℕ → IrqCntlr → Exec (List Act × IrqManager)
handle_spurious m irq_no c =
    let ent = m.entries irq_no in
    let cnt = (ent.spurious_cnt + 1) % 2 ^ 64 in
    let counted = put_entry m irq_no (record ent { spurious_cnt = cnt }) in
    if cnt == spurious_intr_threshold
    then (operate c.disable irq_no
        >> done (
          disable_line ∷ [],
          record counted { spurious_mask = set_bit counted.spurious_mask irq_no },
        ))
    else (operate c.enable irq_no >> done (enable_line ∷ [], counted))

-- The assertions read the controller before the code tests that there is one.
unfoldable pub kcom_handle_irqs :
    IrqManager → ℕ → Bool → (IrqHandler → IhandlerRes) → Exec (List Act × IrqManager)
unfolding call_handlers handle_spurious
kcom_handle_irqs m irq_no intr_disabled answer = do
  kassert (ltb irq_no nr_irqs)
  kassert intr_disabled
  c ← deref (m.entries irq_no).controller
  is_there c.disable
  is_there c.enable
  is_there c.send_eoi
  operate c.disable irq_no
  operate c.send_eoi irq_no
  let calls =
      call_handlers answer (not (test_bit (m.entries irq_no).iflags exclusive))
        (m.entries irq_no).hdlr_que
  end ←
      (if calls.1
        then (operate c.enable irq_no >> done (enable_line ∷ [], m))
        else handle_spurious m irq_no c)
  done (inc_intr ∷ disable_line ∷ send_eoi ∷ (calls.0 ++ (end.0 ++ (dec_intr ∷ []))), end.1)
