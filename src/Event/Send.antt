-- ===== src/Event/Send.antt =====
-- event/async-event.c: sending events to threads and processes, and taking them, on top of the scheduler.
use yatos.Prelude.{
  ℕ, Bool, not, ◌&&◌, ◌||◌, ◌==◌, ltb, if◌then◌else◌, List, [], ◌∷◌, Option, none, some, Exec, done,
  ◌>>=◌, ◌>>◌, kassert, Rc, ok, enoent, eperm,
}
use yatos.Thread.State.{ThrState, thr_wait_killable, thr_wait_intr}
use yatos.Thread.Sched.{Sys, sched_wakeup}
use yatos.Event.Mask.{EventMask, ev_nr_event, ev_sig_kill, ev_mask_test, ev_mask_empty}
use yatos.Event.Queue.{Evinfo, EventQueue, post_event, dequeue_from_evque_nolock}

-- The threads with their event queues and processes, and the processes with their event queues and
-- threads, of which one is the master. `is_thread` is the search of the tree of all threads.
pub record EvSys : Type 0 where
  pub sys : Sys
  pub is_thread : ℕ → Bool
  pub is_kernel : ℕ → Bool
  pub evques : ℕ → EventQueue
  pub proc_of : ℕ → ℕ
  pub proc_evques : ℕ → EventQueue
  pub threads_of : ℕ → List ℕ
  pub master_of : ℕ → ℕ

abbrev pub put_evque : EvSys → ℕ → EventQueue → EvSys
put_evque w t q = record w { evques = λ u. if u == t then q else w.evques u }

abbrev pub put_proc_evque : EvSys → ℕ → EventQueue → EvSys
put_proc_evque w p q = record w { proc_evques = λ o. if o == p then q else w.proc_evques o }

-- the condition on which an event that is not masked ends a thread's sleep
abbrev pub ends_sleep : ThrState → ℕ → Bool
ends_sleep st id = ((id == ev_sig_kill) && thr_wait_killable st) || thr_wait_intr st

-- the part that ev_send and ev_send_to_process share: the thread is woken where it sleeps that way and does
-- not mask the event
unfoldable pub wake_for_event : EvSys → ℕ → ℕ → Exec EvSys
wake_for_event w t id = do
  masked ← ev_mask_test (w.evques t).masks id
  if not masked && ends_sleep (w.sys.threads t).status id
      then (sched_wakeup w.sys t >>= λ s. done (record w { sys = s }))
      else done w

unfoldable pub ev_send : EvSys → ℕ → Evinfo → Exec (Rc × EvSys)
unfolding wake_for_event
ev_send w dest node =
    if not (w.is_thread dest)
    then done (enoent, w)
    else if w.is_kernel dest
    then done (eperm, w)
    else (do
      kassert (ltb node.no ev_nr_event)
      q ← post_event (w.evques dest) node
      w' ← wake_for_event (put_evque w dest q) dest node.no
      done (ok, w'))

-- the loop over the threads of a process
unfoldable pub wake_threads : EvSys → List ℕ → ℕ → Exec EvSys
unfolding wake_for_event
wake_threads w [] id = done w
wake_threads w (t ∷ ts) id = wake_for_event w t id >>= λ w'. wake_threads w' ts id

unfoldable pub ev_send_to_process : EvSys → ℕ → Evinfo → Exec EvSys
unfolding wake_threads
ev_send_to_process w p node = do
  q ← post_event (w.proc_evques p) node
  wake_threads (put_proc_evque w p q) (w.threads_of p) node.no

unfoldable pub ev_get_mask : EvSys → EventMask
ev_get_mask w = (w.evques w.sys.current).masks

unfoldable pub ev_update_mask : EvSys → ℕ → EventMask → EvSys
ev_update_mask w t mask = put_evque w t (record (w.evques t) { masks = mask })

-- The masks do not count.
unfoldable pub ev_has_pending_events : EvSys → ℕ → Bool
ev_has_pending_events w t =
    let rc = ev_mask_empty (w.proc_evques (w.proc_of t)).events in
    not (if rc then ev_mask_empty (w.evques t).events else rc)

-- The end of ev_dequeue: what it has found on the queue of the process, else its search of the queue of
-- the thread
abbrev pub or_own : EvSys → Option Evinfo × EventQueue → Exec (Option Evinfo × EvSys)
or_own w (some node, q) = done (some node, put_proc_evque w (w.proc_of w.sys.current) q)
or_own w (none, q) =
    let w1 = put_proc_evque w (w.proc_of w.sys.current) q in
    dequeue_from_evque_nolock (w.evques w.sys.current) (w.evques w.sys.current).masks >>= λ r.
    done (r.0, put_evque w1 w.sys.current r.1)

unfoldable pub ev_dequeue : EvSys → Exec (Option Evinfo × EvSys)
ev_dequeue w =
    dequeue_from_evque_nolock (w.proc_evques (w.proc_of w.sys.current))
      (w.evques w.sys.current).masks
    >>= λ r. or_own w r
