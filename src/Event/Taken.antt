-- ===== src/Event/Taken.antt =====
-- event/async-event.c: an event that a thread sends to itself is the next one that it takes.
use mathlib.Core.Path.{subst}
use yatos.Prelude.{
  ℕ, ◌<◌, ◌≡◌, refl, sym, ap, ◌∙◌, inl, inr, arith, true, false, ltb, lt→ltb, ◌==◌, Bool-cases,
  List, [], ◌∷◌, ◌++◌, Option, none, some, Exec, done, ok,
}
use yatos.Thread.State.{thr_wait_intr}
use yatos.Event.Mask.{EventMask, ev_nr_event, ev_sig_kill}
use yatos.Event.Deliverable.{has, IsMask}
use yatos.Event.Queue.{Evinfo, EventQueue, dequeue_from_evque_nolock}
use yatos.Event.Dequeue.{is_empty, IsConsistent, Idle, Takes, dequeue_from_evque_nolock-Takes}
use yatos.Event.Post.{post_event-Posts}
use yatos.Event.Send.{EvSys, put_evque, put_proc_evque, ev_send, ev_dequeue}
use yatos.Event.Deliver.{wake_for_event-awake, put_evque-here}

-- Where nothing is to be delivered, nothing is taken.
takes_none :
    (q : EventQueue) (masks : EventMask)
    → IsConsistent q
    → IsMask masks
    → Idle q masks 128
    → dequeue_from_evque_nolock q masks ≡ done (none, q)
takes_none q masks c m idle =
    let (o, q', e, _, t) = dequeue_from_evque_nolock-Takes q masks c m in e ∙ nothing o q' t
  where
    nothing :
        (o : Option Evinfo) (q' : EventQueue)
        → Takes q masks o q'
        → ◌≡◌ {A = Exec (Option Evinfo × EventQueue)} (done (o, q')) (done (none, q))
    nothing none q' t = ap (λ x. done (none, x)) t.0
    nothing (some n) q' (id, small, other, unmasked, front, rest, below) =
        absurd (ground (arith, ap is_empty (sym (idle id small other unmasked) ∙ front)))

same_head : (a b : Evinfo) (l : List Evinfo) → a ∷ l ≡ b ∷ [] → a ≡ b
same_head a b l h = cc

no_tail : (a b : Evinfo) (l : List Evinfo) → a ∷ l ≡ b ∷ [] → l ≡ []
no_tail a b l h = cc

-- The only node of a queue, of an event that is not masked, is taken, and leaves the queue empty.
takes_only :
    (q : EventQueue) (masks : EventMask) (node : Evinfo)
    → IsConsistent q
    → IsMask masks
    → node.no < 128
    → (node.no == ev_sig_kill) ≡ false
    → has masks node.no ≡ false
    → q.que node.no ≡ node ∷ []
    → ((j : ℕ) → (node.no == j) ≡ false → q.que j ≡ [])
    → (q' : EventQueue) × (dequeue_from_evque_nolock q masks ≡ done (some node, q'))
      × ((j : ℕ) → q'.que j ≡ [])
takes_only q masks node c m small other unmasked only nothing =
    let (o, q', e, _, t) = dequeue_from_evque_nolock-Takes q masks c m in
    let (it, empty) = go o q' t in (q', e ∙ it, empty)
  where
    go :
        (o : Option Evinfo) (q' : EventQueue)
        → Takes q masks o q'
        → (◌≡◌ {A = Exec (Option Evinfo × EventQueue)} (done (o, q')) (done (some node, q')))
          × ((j : ℕ) → q'.que j ≡ [])
    go none q' t =
        absurd (ground (arith, ap is_empty (sym only ∙ t.1 node.no small other unmasked)))
    go (some n) q' (id, small', other', unmasked', front, rest, below) =
        elim (Bool-cases (node.no == id)) [
          | inl e ↦
              let it : id ≡ node.no = ground arith in
              let shape : n ∷ q'.que id ≡ node ∷ [] = sym front ∙ ap q.que it ∙ only in
              (
                ap (λ x. done (some x, q')) (same_head n node (q'.que id) shape),
                λ j. elim (Bool-cases (id == j)) [
                  | inl i ↦
                      let at : j ≡ id = ground arith in
                      ap q'.que at ∙ no_tail n node (q'.que id) shape
                  | inr i ↦ rest j i ∙ nothing j (ground (arith, it, i))
                ],
              )
          | inr e ↦ absurd (ground (arith, ap is_empty (sym (nothing id e) ∙ front)))
        ]

-- An event that is neither masked nor EV_SIG_KILL, sent by the current thread, which is a user thread, to
-- itself: where its own queue is empty and its process has nothing to deliver, the next ev_dequeue takes
-- that node, and its queue is empty again.
pub ev_dequeue-ev_send :
    (w : EvSys) (node : Evinfo)
    → IsConsistent (w.evques w.sys.current)
    → IsMask (w.evques w.sys.current).masks
    → IsConsistent (w.proc_evques (w.proc_of w.sys.current))
    → node.no < 128
    → (node.no == ev_sig_kill) ≡ false
    → has (w.evques w.sys.current).masks node.no ≡ false
    → w.is_thread w.sys.current ≡ true
    → w.is_kernel w.sys.current ≡ false
    → thr_wait_intr (w.sys.threads w.sys.current).status ≡ false
    → Idle (w.proc_evques (w.proc_of w.sys.current)) (w.evques w.sys.current).masks 128
    → ((j : ℕ) → (w.evques w.sys.current).que j ≡ [])
    → (w' : EvSys) × (w'' : EvSys) × (ev_send w w.sys.current node ≡ done (ok, w'))
      × (ev_dequeue w' ≡ done (some node, w''))
      × ((j : ℕ) → (w''.evques w.sys.current).que j ≡ [])
unfolding ev_send ev_dequeue
ev_dequeue-ev_send w node c m pc small other unmasked there user awake idle nothing =
    let t = w.sys.current in
    let (q, posted, c', mine, others, masks, now) = post_event-Posts (w.evques t) node c small in
    let w1 = put_evque w t q in
    let at : w1.evques t ≡ q = put_evque-here w t q in
    let at_masks : (w1.evques t).masks ≡ (w.evques t).masks = ap (λ x. x.masks) at ∙ masks in
    let m1 : IsMask (w1.evques t).masks = subst IsMask (sym at_masks) m in
    let known : ltb node.no ev_nr_event ≡ true = lt→ltb node.no 128 small in
    let stays = wake_for_event-awake w1 t node.no m1 small (ground (arith, other, awake)) in
    let pq = w.proc_evques (w.proc_of t) in
    let proc_none =
      takes_none pq (w1.evques t).masks pc m1 (subst (λ x. Idle pq x 128) (sym at_masks) idle) in
    let (q', taken, empty) =
      takes_only q (w1.evques t).masks node c' m1 small other
        (ap (λ x. has x node.no) at_masks ∙ unmasked)
        (mine ∙ ap (λ l. l ++ (node ∷ [])) (nothing node.no)) (λ j n. others j n ∙ nothing j) in
    let own : dequeue_from_evque_nolock (w1.evques t) (w1.evques t).masks ≡ done (some node, q') =
      ap (λ x. dequeue_from_evque_nolock x (w1.evques t).masks) at ∙ taken in
    let w2 = put_evque (put_proc_evque w1 (w.proc_of t) pq) t q' in
    (
      w1,
      w2,
      rw (there, user, known, posted, stays) refl,
      rw (proc_none, own) refl,
      λ j. ap (λ x. x.que j) (put_evque-here (put_proc_evque w1 (w.proc_of t) pq) t q') ∙ empty j,
    )
