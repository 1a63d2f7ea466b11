-- ===== src/Event/Deliver.antt =====
-- event/async-event.c: what sending an event does to its thread, and that a sent event is taken.
use mathlib.Core.Path.{subst}
use yatos.Prelude.{
  ℕ, ◌<◌, ◌≡◌, refl, sym, ap, ◌∙◌, inl, inr, arith, true, false, not, ◌&&◌, ltb, lt→ltb, ◌==◌,
  if◌then◌else◌, Bool-cases, [], ◌∷◌, ◌++◌, done, ok,
}
use yatos.Thread.State.{
  ThrState, free, dormant, ready, run, wait, wait_killable, wait_intr, exit, is_ready, thr_in_wait,
}
use yatos.Thread.Sched.{Sys, can_wake}
use yatos.Thread.Queues.{IsValid, que_of}
use yatos.Thread.Wakeup.{sched_wakeup-Wakes}
use yatos.Event.Mask.{ev_nr_event}
use yatos.Event.Deliverable.{has, IsMask}
use yatos.Event.Update.{ev_mask_test_lem}
use yatos.Event.Queue.{Evinfo, EventQueue}
use yatos.Event.Dequeue.{IsConsistent}
use yatos.Event.Post.{post_event-Posts}
use yatos.Event.Send.{EvSys, put_evque, ends_sleep, wake_for_event, ev_send}

pub sleeps : (st : ThrState) (id : ℕ) → ends_sleep st id ≡ true → thr_in_wait st ≡ true
sleeps wait_killable id e = refl
sleeps wait_intr id e = refl
sleeps free id e = absurd (ground (arith, e))
sleeps dormant id e = absurd (ground (arith, e))
sleeps ready id e = absurd (ground (arith, e))
sleeps run id e = absurd (ground (arith, e))
sleeps wait id e = absurd (ground (arith, e))
sleeps exit id e = absurd (ground (arith, e))

-- A thread that sleeps until an event, and one that does not.
wake_for_event-asleep :
    (w : EvSys) (t id : ℕ)
    → IsMask (w.evques t).masks
    → id < 128
    → has (w.evques t).masks id ≡ false
    → ends_sleep (w.sys.threads t).status id ≡ true
    → IsValid w.sys
    → (t == w.sys.current) ≡ false
    → (t == w.sys.idle) ≡ false
    → (s : Sys) × (wake_for_event w t id ≡ done (record w { sys = s }))
      × IsValid s
      × (is_ready (s.threads t).status ≡ true)
      × (que_of s (w.sys.threads t).prio ≡ que_of w.sys (w.sys.threads t).prio ++ (t ∷ []))
unfolding wake_for_event
wake_for_event-asleep w t id m small unmasked e v apart busy =
    let st = (w.sys.threads t).status in
    let asleep : thr_in_wait st ≡ true = sleeps st id e in
    let can : can_wake st ≡ true = rw asleep refl in
    let (s, eq, v', how) = sched_wakeup-Wakes w.sys t v apart busy can in
    let (now, at_end) = rw asleep at how in
    (s, rw (ev_mask_test_lem (w.evques t).masks id m small, unmasked, e, eq) refl, v', now, at_end)

pub wake_for_event-awake :
    (w : EvSys) (t id : ℕ)
    → IsMask (w.evques t).masks
    → id < 128
    → not (has (w.evques t).masks id) && ends_sleep (w.sys.threads t).status id ≡ false
    → wake_for_event w t id ≡ done w
unfolding wake_for_event
wake_for_event-awake w t id m small e = rw (ev_mask_test_lem (w.evques t).masks id m small, e) refl

pub put_evque-here : (w : EvSys) (t : ℕ) (q : EventQueue) → (put_evque w t q).evques t ≡ q
put_evque-here w t q = let same : (t == t) ≡ true = ground arith in rw same refl

-- An event sent to a user thread that is neither current nor idle, in a valid system, on a queue whose
-- bits agree: its node is the youngest of its event on the queue of the thread, no other queue changes,
-- and the thread becomes ready if it does not mask the event and sleeps until an event, else the system
-- stays as it is. The system stays valid and the bits agree.
pub ev_send-Delivers :
    (w : EvSys) (t : ℕ) (node : Evinfo)
    → IsValid w.sys
    → IsConsistent (w.evques t)
    → IsMask (w.evques t).masks
    → node.no < 128
    → w.is_thread t ≡ true
    → w.is_kernel t ≡ false
    → (t == w.sys.current) ≡ false
    → (t == w.sys.idle) ≡ false
    → (w' : EvSys) × (ev_send w t node ≡ done (ok, w'))
      × IsValid w'.sys
      × IsConsistent (w'.evques t)
      × ((w'.evques t).que node.no ≡ (w.evques t).que node.no ++ (node ∷ []))
      × ((u : ℕ) → (u == t) ≡ false → w'.evques u ≡ w.evques u)
      × (w'.proc_evques ≡ w.proc_evques)
      × (if not (has (w.evques t).masks node.no) && ends_sleep (w.sys.threads t).status node.no
          then (is_ready (w'.sys.threads t).status ≡ true)
            × (que_of w'.sys (w.sys.threads t).prio
                ≡ que_of w.sys (w.sys.threads t).prio ++ (t ∷ []))
          else w'.sys ≡ w.sys)
unfolding ev_send
ev_send-Delivers w t node v c m small there user apart busy =
    let (q, posted, c', mine, others, masks, now) = post_event-Posts (w.evques t) node c small in
    let w1 = put_evque w t q in
    let at : w1.evques t ≡ q = put_evque-here w t q in
    let at_masks : (w1.evques t).masks ≡ (w.evques t).masks = ap (λ x. x.masks) at ∙ masks in
    let m1 : IsMask (w1.evques t).masks = subst IsMask (sym at_masks) m in
    let c1 : IsConsistent (w1.evques t) = subst IsConsistent (sym at) c' in
    let mine1 : (w1.evques t).que node.no ≡ (w.evques t).que node.no ++ (node ∷ []) =
      ap (λ x. x.que node.no) at ∙ mine in
    let known : ltb node.no ev_nr_event ≡ true = lt→ltb node.no 128 small in
    let apart_from : (u : ℕ) → (u == t) ≡ false → w1.evques u ≡ w.evques u = λ u n. rw n refl in
    elim (Bool-cases
      (not (has (w.evques t).masks node.no) && ends_sleep (w.sys.threads t).status node.no)) [
        | inl e ↦
            let unmasked : has (w1.evques t).masks node.no ≡ false =
              ap (λ x. has x node.no) at_masks ∙ ground arith in
            let (s, woken, v', ready_now, at_end) =
              wake_for_event-asleep w1 t node.no m1 small unmasked (ground arith) v apart busy in
            (
              record w1 { sys = s },
              rw (there, user, known, posted, woken) refl,
              v',
              c1,
              mine1,
              apart_from,
              refl,
              rw e (ready_now, at_end),
            )
        | inr e ↦
            let awake = wake_for_event-awake w1 t node.no m1 small (
              ap (λ x. not (has x node.no) && ends_sleep (w.sys.threads t).status node.no) at_masks
              ∙ e) in
            (
              w1,
              rw (there, user, known, posted, awake) refl,
              v,
              c1,
              mine1,
              apart_from,
              refl,
              rw e refl,
            )
      ]
