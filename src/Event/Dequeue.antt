-- ===== src/Event/Dequeue.antt =====
-- event/async-event.c: which event is taken from a queue, and the agreement of pending bits and queues.
use yatos.Prelude.{
  ℕ, ◌<◌, ◌≡◌, refl, sym, ap, ◌∙◌, inl, inr, arith, Bool, true, false, not, ◌&&◌, lt→ltb, ◌==◌,
  if◌then◌else◌, Bool-cases, List, [], ◌∷◌, Option, none, some, done,
}
use yatos.Event.Mask.{EventMask, ev_sig_kill, ev_mask_xor, ev_mask_and, ev_mask_find_first_bit}
use yatos.Event.Deliverable.{has, IsMask, deliverable, ev_mask_and-IsMask}
use yatos.Event.FirstBit.{Lowest, ev_mask_find_first_bit-Lowest}
use yatos.Event.Update.{ev_mask_unset_lem}
use yatos.Event.Queue.{
  Evinfo, EventQueue, set_que, take_event, deliver_event, dequeue_from_evque_nolock,
}

abbrev pub is_empty : List Evinfo → Bool
is_empty [] = true
is_empty (e ∷ es) = false

-- An event is pending exactly when its queue has a node; EV_SIG_KILL never is.
pub record IsConsistent (q : EventQueue) : Type 0 where
  pub mask : IsMask q.events
  pub pending :
      (id : ℕ) → id < 128 → has q.events id ≡ (not (id == ev_sig_kill) && not (is_empty (q.que id)))

-- Nothing to deliver among the events below n.
abbrev pub Idle : EventQueue → EventMask → ℕ → Type 0
Idle q masks n = (j : ℕ) → j < n → (j == ev_sig_kill) ≡ false → has masks j ≡ false → q.que j ≡ []

-- What a dequeue may answer: nothing, where every pending event is masked; or the oldest node of the
-- lowest event that is pending and not masked, which alone leaves its queue.
abbrev pub Takes : EventQueue → EventMask → Option Evinfo → EventQueue → Type 0
Takes q masks none q' = (q' ≡ q) × Idle q masks 128
Takes q masks (some node) q' =
    (id : ℕ) × (id < 128)
    × ((id == ev_sig_kill) ≡ false)
    × (has masks id ≡ false)
    × (q.que id ≡ node ∷ q'.que id)
    × ((j : ℕ) → (id == j) ≡ false → q'.que j ≡ q.que j)
    × Idle q masks id

Idle-deliver :
    (q : EventQueue) (masks : EventMask) (n : ℕ)
    → IsConsistent q
    → IsMask masks
    → n < 129
    → ((j : ℕ) → j < n → has (ev_mask_and q.events (ev_mask_xor q.events masks)) j ≡ false)
    → Idle q masks n
Idle-deliver q masks n c m h off j small kill free = go (q.que j) refl
  where
    go : (l : List Evinfo) → q.que j ≡ l → l ≡ []
    go [] e = refl
    go (x ∷ l) e =
        let set : has q.events j ≡ true = c.pending j (omega arith) ∙ rw (e, kill) refl in
        let on = deliverable q.events masks j c.mask m (omega arith) in
        absurd (ground (arith, off j small, on, set, free))

pub at_same : (que : ℕ → List Evinfo) (id : ℕ) (l : List Evinfo) → set_que que id l id ≡ l
at_same que id l = let same : (id == id) ≡ true = ground arith in rw same refl

pub elsewhere :
    (que : ℕ → List Evinfo) (id j : ℕ) (l : List Evinfo)
    → (id == j) ≡ false
    → set_que que id l j ≡ que j
elsewhere que id j l h = let other : (j == id) ≡ false = ground arith in rw other refl

take_event-Takes :
    (q : EventQueue) (masks : EventMask) (id : ℕ)
    → IsConsistent q
    → id < 128
    → has q.events id ≡ true
    → has masks id ≡ false
    → Idle q masks id
    → (node : Evinfo) × (q' : EventQueue) × (take_event q id (q.que id) ≡ done (some node, q'))
      × IsConsistent q'
      × Takes q masks (some node) q'
unfolding take_event
take_event-Takes q masks id c small set free idle = go (q.que id) refl
  where
    kill_off : (id == ev_sig_kill) ≡ false
    kill_off = ground (arith, c.pending id small)

    emptied :
        (j : ℕ)
        → j < 128
        → (if id == j then false else has q.events j)
          ≡ (not (j == ev_sig_kill) && not (is_empty (set_que q.que id [] j)))
    emptied j h = elim (Bool-cases (id == j)) [
      | inl e ↦ let same : (j == id) ≡ true = ground arith in rw (e, same) (ground arith)
      | inr e ↦ let other : (j == id) ≡ false = ground arith in rw (e, other) (c.pending j h)
    ]

    more :
        (next : Evinfo) (rest : List Evinfo) (j : ℕ)
        → j < 128
        → has q.events j
          ≡ (not (j == ev_sig_kill) && not (is_empty (set_que q.que id (next ∷ rest) j)))
    more next rest j h = elim (Bool-cases (j == id)) [
      | inl e ↦ let same : j ≡ id = ground arith in rw (e, same, kill_off) set
      | inr e ↦ rw e (c.pending j h)
    ]

    go :
        (l : List Evinfo)
        → q.que id ≡ l
        → (node : Evinfo) × (q' : EventQueue) × (take_event q id l ≡ done (some node, q'))
          × IsConsistent q'
          × Takes q masks (some node) q'
    go [] e = absurd (ground (arith, c.pending id small, e, ap is_empty e))
    go (node ∷ []) e =
        let (events, eq, mask, now) = ev_mask_unset_lem q.events id c.mask small in
        (
          node,
          record q { events = events; que = set_que q.que id [] },
          rw eq refl,
          record { mask = mask; pending = λ j h. now j ∙ emptied j h },
          (
            id,
            small,
            kill_off,
            free,
            e ∙ ap (λ l. node ∷ l) (sym (at_same q.que id [])),
            λ j h. elsewhere q.que id j _ h,
            idle,
          ),
        )
    go (node ∷ next ∷ rest) e = (
      node,
      record q { que = set_que q.que id (next ∷ rest) },
      refl,
      record { mask = c.mask; pending = more next rest },
      (
        id,
        small,
        kill_off,
        free,
        e ∙ ap (λ l. node ∷ l) (sym (at_same q.que id (next ∷ rest))),
        λ j h. elsewhere q.que id j _ h,
        idle,
      ),
    )

-- On a queue whose pending bits agree with its nodes, with any mask, dequeue_from_evque_nolock ends
-- without a failed assertion: it answers that nothing is to be delivered and changes nothing, or takes
-- the oldest node of the lowest event that is pending and not masked; the bits agree afterwards.
pub dequeue_from_evque_nolock-Takes :
    (q : EventQueue) (masks : EventMask)
    → IsConsistent q
    → IsMask masks
    → (o : Option Evinfo) × (q' : EventQueue) × (dequeue_from_evque_nolock q masks ≡ done (o, q'))
      × IsConsistent q'
      × Takes q masks o q'
unfolding dequeue_from_evque_nolock deliver_event
dequeue_from_evque_nolock-Takes q masks c m =
    go (ev_mask_find_first_bit deliver) refl
      (ev_mask_find_first_bit-Lowest deliver (ev_mask_and-IsMask q.events masks c.mask m))
  where
    deliver : EventMask
    deliver = ev_mask_and q.events (ev_mask_xor q.events masks)

    go :
        (r : Option ℕ)
        → ev_mask_find_first_bit deliver ≡ r
        → Lowest (has deliver) 128 r
        → (o : Option Evinfo) × (q' : EventQueue) × (dequeue_from_evque_nolock q masks
            ≡ done (o, q'))
          × IsConsistent q'
          × Takes q masks o q'
    go none e off =
        (none, q, ap (deliver_event q) e, c, (refl, Idle-deliver q masks 128 c m (omega arith) off))
    go (some id) e (small, on, below) =
        let both = sym (deliverable q.events masks id c.mask m small) ∙ on in
        let set : has q.events id ≡ true = ground (arith, both) in
        let free : has masks id ≡ false = ground (arith, both) in
        let (node, q', eq, ok, t) =
          take_event-Takes q masks id c small set free
            (Idle-deliver q masks id c m (omega arith) below) in
        (some node, q', ap (deliver_event q) e ∙ rw (lt→ltb id 128 small) eq, ok, t)
