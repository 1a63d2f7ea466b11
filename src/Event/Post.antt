-- ===== src/Event/Post.antt =====
-- event/async-event.c: a node posted on an event queue, and what becomes of EV_SIG_KILL.
use yatos.Prelude.{
  ℕ, ◌<◌, ◌≡◌, refl, sym, ap, ◌∙◌, inl, inr, arith, true, false, not, ◌&&◌, ◌==◌, if◌then◌else◌,
  Bool-cases, List, [], ◌∷◌, ◌++◌, Option, none, some, Exec, done,
}
use yatos.Event.Mask.{EventMask, ev_sig_kill}
use yatos.Event.Deliverable.{has, IsMask}
use yatos.Event.Update.{ev_mask_set_lem}
use yatos.Event.Queue.{Evinfo, EventQueue, set_que, dequeue_from_evque_nolock, post_event}
use yatos.Event.Dequeue.{
  is_empty, IsConsistent, Takes, at_same, elsewhere, dequeue_from_evque_nolock-Takes,
}

-- Posting a node, on a queue whose bits agree: it becomes the youngest node of its event, the bits
-- agree afterwards, and no other queue nor the masks change. For EV_SIG_KILL no bit changes.
pub post_event-Posts :
    (q : EventQueue) (node : Evinfo)
    → IsConsistent q
    → node.no < 128
    → (q' : EventQueue) × (post_event q node ≡ done q')
      × IsConsistent q'
      × (q'.que node.no ≡ q.que node.no ++ (node ∷ []))
      × ((j : ℕ) → (node.no == j) ≡ false → q'.que j ≡ q.que j)
      × (q'.masks ≡ q.masks)
      × ((j : ℕ)
          → j < 128
          → has q'.events j
            ≡ (if not (node.no == ev_sig_kill) && node.no == j then true else has q.events j))
unfolding post_event
post_event-Posts q node c small =
    let (events, eq, mask, now) = ev_mask_set_lem q.events node.no c.mask small in
    let l = q.que node.no ++ (node ∷ []) in
    (
      record q { events = events; que = set_que q.que node.no l },
      rw eq refl,
      record { mask = mask; pending = λ j h. now j ∙ posted j h },
      at_same q.que node.no l,
      λ j h. elsewhere q.que node.no j l h,
      refl,
      λ j h. now j,
    )
  where
    filled : (l : List Evinfo) → is_empty (l ++ (node ∷ [])) ≡ false
    filled [] = refl
    filled (x ∷ l) = refl

    posted :
        (j : ℕ)
        → j < 128
        → (if not (node.no == ev_sig_kill) && node.no == j then true else has q.events j) ≡ (
            not (j == ev_sig_kill)
            && not (is_empty (set_que q.que node.no (q.que node.no ++ (node ∷ [])) j)))
    posted j h = elim (Bool-cases (j == node.no)) [
      | inl e ↦
          let same : j ≡ node.no = ground arith in
          rw (e, filled (q.que node.no)) (ground (arith, c.pending j h))
      | inr e ↦
          let other : (node.no == j) ≡ false = ground arith in
          rw (e, other) (ground (arith, c.pending j h))
    ]

-- EV_SIG_KILL posted on a queue whose bits agree and that holds nothing else is not delivered: its node
-- is queued, and dequeue_from_evque_nolock answers that there is no event, whatever the mask.
pub post_event-kill :
    (q : EventQueue) (node : Evinfo) (masks : EventMask)
    → IsConsistent q
    → IsMask masks
    → node.no ≡ ev_sig_kill
    → ((j : ℕ) → q.que j ≡ [])
    → (q' : EventQueue) × (post_event q node ≡ done q')
      × (q'.que ev_sig_kill ≡ node ∷ [])
      × (dequeue_from_evque_nolock q' masks ≡ done (none, q'))
post_event-kill q node masks c m kill nothing =
    let (q', e, c', mine, others, _, _) = post_event-Posts q node c (omega (arith, kill)) in
    let (o, q'', d, _, t) = dequeue_from_evque_nolock-Takes q' masks c' m in
    let held : q'.que ev_sig_kill ≡ node ∷ [] =
      ap q'.que (sym kill) ∙ mine ∙ ap (λ l. l ++ (node ∷ [])) (nothing node.no) in
    (q', e, held, d ∙ untaken q' o q'' others t)
  where
    untaken :
        (q' : EventQueue) (o : Option Evinfo) (q'' : EventQueue)
        → ((j : ℕ) → (node.no == j) ≡ false → q'.que j ≡ q.que j)
        → Takes q' masks o q''
        → ◌≡◌ {A = Exec (Option Evinfo × EventQueue)} (done (o, q'')) (done (none, q'))
    untaken q' none q'' others t = ap (λ x. done (none, x)) t.0
    untaken q' (some taken) q'' others (id, small, other, free, front, rest, idle) =
        let apart : (node.no == id) ≡ false = ground (arith, other, kill) in
        absurd (ground (arith, ap is_empty (sym (others id apart ∙ nothing id) ∙ front)))
