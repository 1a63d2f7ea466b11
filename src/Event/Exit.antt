-- ===== src/Event/Exit.antt =====
-- event/async-event.c: sending a copy of an event to every thread of a process, and what becomes of the
-- events of a thread that ends.
use yatos.Prelude.{
  ℕ, zero, suc, ◌+◌, Bool, true, false, ◌||◌, ◌==◌, if◌then◌else◌, List, [], ◌∷◌, none, some, Exec,
  done, ◌>>=◌, ◌>>◌, kassert, Rc, ok, enomem, is_ok,
}
use yatos.Bits.{test_bit}
use yatos.Thread.State.{ThrState, exit}
use yatos.Event.Mask.{ev_nr_event, ev_mask_unset}
use yatos.Event.Queue.{Evinfo, set_que, ev_alloc_node}
use yatos.Event.Send.{EvSys, put_evque, ev_send, ev_send_to_process}

-- The loop over the threads of the process: `grants` says of each thread whether kmalloc gives the copy,
-- `by_kernel` whether the caller's process is the kernel's.
unfoldable pub send_to_each : EvSys → List ℕ → Evinfo → (ℕ → Bool) → Bool → Exec (Rc × EvSys)
unfolding ev_alloc_node ev_send
send_to_each w [] node grants by_kernel = done (ok, w)
send_to_each w (t ∷ ts) node grants by_kernel = elim (ev_alloc_node (grants t) by_kernel node.no) [
  | none ↦ done (enomem, w)
  | some copy ↦ ev_send w t node >>= λ r.
      if is_ok r.0 then send_to_each r.1 ts node grants by_kernel else done r
]

unfoldable pub ev_send_to_all_threads_in_process :
    EvSys → ℕ → Evinfo → (ℕ → Bool) → Bool → Exec (Rc × EvSys)
unfolding send_to_each
ev_send_to_all_threads_in_process w p node grants by_kernel =
    send_to_each w (w.threads_of p) node grants by_kernel

abbrev pub is_exit : ThrState → Bool
is_exit exit = true
is_exit _ = false

-- the bit of EV_FLAGS_THREAD_SPECIFIC
abbrev pub thread_specific : ℕ
thread_specific = 0

-- whether a node is freed when the current thread ends: it is the master, or the event is for it alone
abbrev pub is_dropped : EvSys → Evinfo → Bool
is_dropped w node =
    (w.sys.current == w.master_of (w.proc_of w.sys.current)) || test_bit node.flags thread_specific

-- The inner loop of ev_handle_exit_thread_events, on the nodes that are left on the queue of an event
unfoldable pub pass_on : EvSys → ℕ → List Evinfo → Exec EvSys
unfolding ev_send_to_process
pass_on w id [] = done w
pass_on w id (node ∷ nodes) =
    let own = w.evques w.sys.current in
    let w1 = put_evque w w.sys.current (record own { que = set_que own.que id nodes }) in
    (if is_dropped w node then done w1 else ev_send_to_process w1 (w.proc_of w.sys.current) node)
    >>= λ w2. pass_on w2 id nodes

abbrev pub is_nil : List Evinfo → Bool
is_nil [] = true
is_nil (e ∷ es) = false

-- The outer loop, from the event `id` on
unfoldable pub pass_all_on : ℕ → EvSys → ℕ → Exec EvSys
unfolding pass_on ev_mask_unset
pass_all_on zero w id = done w
pass_all_on (suc rounds) w id = do
  w1 ← pass_on w id ((w.evques w.sys.current).que id)
  kassert (is_nil ((w1.evques w1.sys.current).que id))
  events ← ev_mask_unset (w1.evques w1.sys.current).events id
  pass_all_on rounds
      (put_evque w1 w1.sys.current (record (w1.evques w1.sys.current) { events = events })) (id + 1)

unfoldable pub ev_handle_exit_thread_events : EvSys → Exec EvSys
unfolding pass_all_on
ev_handle_exit_thread_events w = do
  kassert (is_exit (w.sys.threads w.sys.current).status)
  pass_all_on ev_nr_event w 0
