-- ===== src/Thread/Queues.antt =====
-- thr/thread-schedule.c: which threads stand on the ready queues, kept by every change.
use yatos.Prelude.{
  ℕ, ◌+◌, ◌-◌, ◌<◌, ◌≡◌, refl, sym, ap, ◌∙◌, inl, inr, arith, Bool, true, false, not, ◌&&◌, ◌||◌,
  lt→ltb, ◌==◌, if◌then◌else◌, Bool-cases, List, [], ◌∷◌, ◌++◌, length, length-append, done,
}
use yatos.Thread.State.{is_ready, ThreadQueue, tq_add}
use yatos.Thread.Sched.{Thread, Sys, set_thread, set_queue, ready_queue_add_nolock}

-- how often a thread stands on a list
abbrev pub count : ℕ → List ℕ → ℕ
count t [] = 0
count t (u ∷ us) = (if t == u then 1 else 0) + count t us

pub count-append : (t : ℕ) (us vs : List ℕ) → count t (us ++ vs) ≡ count t us + count t vs
count-append t [] vs = omega arith
count-append t (u ∷ us) vs = omega (arith, count-append t us vs)

abbrev pub que_of : Sys → ℕ → List ℕ
que_of s p = (s.ready_queues p).que

-- the threads that wait for the CPU: ready, and neither current nor idle
abbrev pub is_waiting_for_cpu : Sys → ℕ → Bool
is_waiting_for_cpu s t =
    is_ready (s.threads t).status && (not (t == s.current) && not (t == s.idle))

-- Each thread of a set stands once on the queue of its priority, and nothing else stands on a ready
-- queue. The counts of the queues are right.
pub record IsQueued (s : Sys) (w : ℕ → Bool) : Type 0 where
  pub prio : (t : ℕ) → (s.threads t).prio < 32
  pub queued :
      (t p : ℕ) → p < 32 → count t (que_of s p) ≡ (if w t && (s.threads t).prio == p then 1 else 0)
  pub counts : (p : ℕ) → p < 32 → (s.ready_queues p).cnt ≡ length (que_of s p)

-- The invariant: the threads on the ready queues are those that wait for the CPU.
abbrev pub IsValid : Sys → Type 0
IsValid s = IsQueued s (is_waiting_for_cpu s)

pub same_threads : (s : Sys) (w v : ℕ → Bool) → IsQueued s w → ((t : ℕ) → w t ≡ v t) → IsQueued s v
same_threads s w v k e = record {
  prio = k.prio;
  queued = λ t p h. rw (← e t) (k.queued t p h);
  counts = k.counts;
}

-- Changing what is not the priority of a thread moves no thread.
pub set_thread-IsQueued :
    (s : Sys) (t : ℕ) (v : Thread) (w : ℕ → Bool)
    → v.prio ≡ (s.threads t).prio
    → IsQueued s w
    → IsQueued (set_thread s t v) w
set_thread-IsQueued s t v w same k = record {
  prio = λ u. rw (keeps u) (k.prio u);
  queued = λ u p h. rw (keeps u) (k.queued u p h);
  counts = k.counts;
}
  where
    keeps : (u : ℕ) → ((set_thread s t v).threads u).prio ≡ (s.threads u).prio
    keeps u = elim (Bool-cases (u == t)) [
      | inl e ↦ let at : u ≡ t = ground arith in rw (e, at) same
      | inr e ↦ rw e refl
    ]

pub que_at :
    (s : Sys) (p0 : ℕ) (q : ThreadQueue) (p : ℕ)
    → (p == p0) ≡ true
    → que_of (set_queue s p0 q) p ≡ q.que
que_at s p0 q p e = ap (λ b. (if b then q else s.ready_queues p).que) e

pub que_other :
    (s : Sys) (p0 : ℕ) (q : ThreadQueue) (p : ℕ)
    → (p == p0) ≡ false
    → que_of (set_queue s p0 q) p ≡ que_of s p
que_other s p0 q p e = ap (λ b. (if b then q else s.ready_queues p).que) e

-- Adding a thread of the set's complement.
pub add-IsQueued :
    (s : Sys) (t : ℕ) (w : ℕ → Bool)
    → IsQueued s w
    → w t ≡ false
    → (s' : Sys) × (ready_queue_add_nolock s t ≡ done s')
      × (s' ≡ set_queue s (s.threads t).prio (tq_add (s.ready_queues (s.threads t).prio) t))
      × IsQueued s' (λ u. w u || u == t)
unfolding ready_queue_add_nolock tq_add
add-IsQueued s t w k off =
    let p0 = (s.threads t).prio in
    (
      set_queue s p0 (tq_add (s.ready_queues p0) t),
      rw (lt→ltb p0 32 (k.prio t)) refl,
      refl,
      record { prio = k.prio; queued = added; counts = counted },
    )
  where
    added :
        (u p : ℕ)
        → p < 32
        → count u (
            que_of
              (set_queue s (s.threads t).prio (tq_add (s.ready_queues (s.threads t).prio) t))
              p)
          ≡ (if (w u || u == t) && (s.threads u).prio == p then 1 else 0)
    added u p h = elim (Bool-cases (p == (s.threads t).prio)) [
      | inl e ↦
          let at : p ≡ (s.threads t).prio = ground arith in
          ap (count u)
            (que_at s (s.threads t).prio (tq_add (s.ready_queues (s.threads t).prio) t) p e)
          ∙ rw
              (
                count-append u (que_of s (s.threads t).prio) (t ∷ []),
                k.queued u (s.threads t).prio (k.prio t),
              )
              (elim (Bool-cases (u == t)) [
                | inl i ↦ let it : u ≡ t = ground arith in rw (i, it, off, at) (ground arith)
                | inr i ↦ rw (i, at) (ground arith)
              ])
      | inr e ↦
          ap (count u)
            (que_other s (s.threads t).prio (tq_add (s.ready_queues (s.threads t).prio) t) p e)
          ∙ rw (k.queued u p h) (elim (Bool-cases (u == t)) [
            | inl i ↦ let it : u ≡ t = ground arith in rw (i, it, off) (ground arith)
            | inr i ↦ rw i (ground arith)
          ])
    ]

    counted :
        (p : ℕ)
        → p < 32
        → ((set_queue s
              (s.threads t).prio
              (tq_add (s.ready_queues (s.threads t).prio) t)).ready_queues
            p).cnt
          ≡ length (
              que_of
                (set_queue s (s.threads t).prio (tq_add (s.ready_queues (s.threads t).prio) t))
                p)
    counted p h = elim (Bool-cases (p == (s.threads t).prio)) [
      | inl e ↦ rw e (
          omega (
            arith,
            k.counts (s.threads t).prio (k.prio t),
            length-append (que_of s (s.threads t).prio) (t ∷ []),
            ap length
                (que_at s (s.threads t).prio (tq_add (s.ready_queues (s.threads t).prio) t) p e),
          ))
      | inr e ↦ rw e (
          k.counts p h
          ∙ sym (
              ap length (
                que_other s (s.threads t).prio (tq_add (s.ready_queues (s.threads t).prio) t) p e)))
    ]

-- Taking off the first thread of a queue.
pub take-IsQueued :
    (s : Sys) (p0 t : ℕ) (rest : List ℕ) (w : ℕ → Bool)
    → IsQueued s w
    → p0 < 32
    → que_of s p0 ≡ t ∷ rest
    → (w t ≡ true)
      × ((s.threads t).prio ≡ p0)
      × IsQueued
          (set_queue s p0 (record { que = rest; cnt = (s.ready_queues p0).cnt - 1 }))
          (λ u. w u && not (u == t))
take-IsQueued s p0 t rest w k small front =
    (proj here, proj₂ here, record { prio = k.prio; queued = taken; counts = counted })
  where
    proj : (w t ≡ true) × ((s.threads t).prio ≡ p0) → w t ≡ true
    proj x = x.0

    proj₂ : (w t ≡ true) × ((s.threads t).prio ≡ p0) → (s.threads t).prio ≡ p0
    proj₂ x = x.1

    at_front : (u : ℕ) → count u (que_of s p0) ≡ (if u == t then 1 else 0) + count u rest
    at_front u = ap (count u) front

    here : (w t ≡ true) × ((s.threads t).prio ≡ p0)
    here = ground (arith, at_front t, k.queued t p0 small)

    taken :
        (u p : ℕ)
        → p < 32
        → count u
            (que_of (set_queue s p0 (record { que = rest; cnt = (s.ready_queues p0).cnt - 1 })) p)
          ≡ (if (w u && not (u == t)) && (s.threads u).prio == p then 1 else 0)
    taken u p h = elim (Bool-cases (p == p0)) [
      | inl e ↦
          let at : p ≡ p0 = ground arith in
          ap (count u) (que_at s p0 (record { que = rest; cnt = (s.ready_queues p0).cnt - 1 }) p e)
          ∙ rw at (elim (Bool-cases (u == t)) [
            | inl i ↦
                let it : u ≡ t = ground arith in
                rw (i, it) (ground (arith, at_front t, k.queued t p0 small))
            | inr i ↦ rw i (ground (arith, at_front u, k.queued u p0 small))
          ])
      | inr e ↦
          ap (count u)
            (que_other s p0 (record { que = rest; cnt = (s.ready_queues p0).cnt - 1 }) p e)
          ∙ rw (k.queued u p h) (elim (Bool-cases (u == t)) [
            | inl i ↦ let it : u ≡ t = ground arith in rw (i, it) (ground (arith, here))
            | inr i ↦ rw i (ground arith)
          ])
    ]

    counted :
        (p : ℕ)
        → p < 32
        → ((set_queue s p0 (record { que = rest; cnt = (s.ready_queues p0).cnt - 1 })).ready_queues
            p).cnt
          ≡ length
              (que_of (set_queue s p0 (record { que = rest; cnt = (s.ready_queues p0).cnt - 1 })) p)
    counted p h = elim (Bool-cases (p == p0)) [
      | inl e ↦ rw e (
          omega (
            arith,
            k.counts p0 small,
            ap length front,
            ap length (que_at s p0 (record { que = rest; cnt = (s.ready_queues p0).cnt - 1 }) p e),
          ))
      | inr e ↦ rw e (
          k.counts p h
          ∙ sym (
              ap length
                (que_other s p0 (record { que = rest; cnt = (s.ready_queues p0).cnt - 1 }) p e)))
    ]
