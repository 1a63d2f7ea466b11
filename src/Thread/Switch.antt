-- ===== src/Thread/Switch.antt =====
-- thr/thread-schedule.c: the search for the next thread, and giving it the CPU.
use yatos.Prelude.{
  ℕ, zero, suc, ◌-◌, ◌<◌, ◌≡◌, refl, ◌⊎◌, inl, inr, arith, Bool, true, false, not, ◌&&◌, ◌||◌,
  lt→ltb, ◌==◌, Bool-cases, List, [], ◌∷◌, done, ◌>>=◌,
}
use yatos.Thread.State.{
  ThrState, ready, run, is_ready, is_run, ThreadInfo, ThreadQueue, tq_get_top, tq_is_empty,
}
use yatos.Thread.Sched.{
  Sys, set_thread, set_status, set_queue, ready_queue_get_top_nolock, ready_queue_is_empty_nolock,
  next_below, sched_switch_threads, requeue_current,
}
use yatos.Thread.Queues.{
  que_of, is_waiting_for_cpu, IsQueued, IsValid, same_threads, set_thread-IsQueued, add-IsQueued,
}

-- What the search below priority n may answer: the idle thread, where those queues are empty, or the
-- first thread of the highest queue that is not empty, which it takes off.
abbrev pub Next : Sys → ℕ → ℕ → Sys → Type 0
Next s n t s' =
    ((t ≡ s.idle) × (s' ≡ s) × ((p : ℕ) → p < n → que_of s p ≡ []))
    ⊎ ((p : ℕ) × (rest : List ℕ) × (p < n)
        × (que_of s p ≡ t ∷ rest)
        × (s' ≡ set_queue s p (record { que = rest; cnt = (s.ready_queues p).cnt - 1 }))
        × ((q : ℕ) → p < q → q < n → que_of s q ≡ []))

Next-later : (s : Sys) (n t : ℕ) (s' : Sys) → que_of s n ≡ [] → Next s n t s' → Next s (suc n) t s'
Next-later s n t s' e (inl (i, same, none)) = inl (
  i,
  same,
  λ p h. elim (Bool-cases (p == n)) [
    | inl k ↦ let at : p ≡ n = ground arith in rw at e
    | inr k ↦ none p (ground arith)
  ],
)
Next-later s n t s' e (inr (p, rest, small, front, same, above)) = inr (
  p,
  rest,
  omega arith,
  front,
  same,
  λ q h k. elim (Bool-cases (q == n)) [
    | inl l ↦ let at : q ≡ n = ground arith in rw at e
    | inr l ↦ above q h (ground arith)
  ],
)

pub next_below-Next :
    (s : Sys) (n : ℕ)
    → n < 33
    → (t : ℕ) × (s' : Sys) × (next_below s n ≡ done (t, s')) × Next s n t s'
unfolding next_below ready_queue_is_empty_nolock ready_queue_get_top_nolock tq_is_empty tq_get_top
next_below-Next s zero h = (s.idle, s, refl, inl (refl, refl, λ p k. absurd (omega arith)))
next_below-Next s (suc n) h = go (que_of s n) refl (next_below-Next s n (omega arith))
  where
    go :
        (l : List ℕ)
        → que_of s n ≡ l
        → ((t : ℕ) × (s' : Sys) × (next_below s n ≡ done (t, s')) × Next s n t s')
        → (t : ℕ) × (s' : Sys) × (next_below s (suc n) ≡ done (t, s')) × Next s (suc n) t s'
    go [] e (t, s', eq, x) = (t, s', rw (lt→ltb n 32 (omega arith), e) eq, Next-later s n t s' e x)
    go (t ∷ rest) e x = (
      t,
      set_queue s n (record { que = rest; cnt = (s.ready_queues n).cnt - 1 }),
      rw (lt→ltb n 32 (omega arith), e) refl,
      inr (n, rest, omega arith, e, refl, λ q a b. absurd (omega arith)),
    )

-- The states that delay_current and the clearing of the dispatch control leave alone.
same_waiting :
    (s : Sys) (v : ThreadInfo) (u : ℕ)
    → is_waiting_for_cpu s u
      ≡ is_waiting_for_cpu (set_thread s s.current (record (s.threads s.current) { ti = v })) u
same_waiting s v u = elim (Bool-cases (u == s.current)) [
  | inl e ↦ let it : u ≡ s.current = ground arith in rw (e, it) refl
  | inr e ↦ rw e refl
]

pub set_ti-IsValid :
    (s : Sys) (v : ThreadInfo)
    → IsValid s
    → IsValid (set_thread s s.current (record (s.threads s.current) { ti = v }))
set_ti-IsValid s v k =
    same_threads (set_thread s s.current (record (s.threads s.current) { ti = v }))
      (is_waiting_for_cpu s) _
      (set_thread-IsQueued s s.current (record (s.threads s.current) { ti = v })
        (is_waiting_for_cpu s) refl k)
      (same_waiting s v)

-- the current thread goes back on its queue where it can, and t takes the CPU
pub switch_to :
    (s : Sys) (t : ℕ)
    → IsQueued s (λ u. is_waiting_for_cpu s u && not (u == t))
    → (t == s.current) ≡ false
    → (s' : Sys) × ((requeue_current s >>= λ s3. done (sched_switch_threads s3 t)) ≡ done s')
      × IsValid s'
      × (s'.current ≡ t)
      × (is_run (s'.threads t).status ≡ true)
unfolding requeue_current sched_switch_threads
switch_to s t k other = go (Bool-cases can_run)
  where
    st : ThrState
    st = (s.threads s.current).status

    can_run : Bool
    can_run = not (s.current == s.idle) && (is_run st || is_ready st)

    runs : (s3 : Sys) → is_run ((sched_switch_threads s3 t).threads t).status ≡ true
    runs s3 = let same : (t == t) ≡ true = ground arith in rw same refl

    settle :
        (s3 : Sys) (w : ℕ → Bool)
        → IsQueued s3 w
        → ((u : ℕ) → w u ≡ is_waiting_for_cpu (sched_switch_threads s3 t) u)
        → IsValid (sched_switch_threads s3 t)
    settle s3 w q e =
        let moved = set_thread-IsQueued s3 t (record (s3.threads t) { status = run }) w refl q in
        same_threads (sched_switch_threads s3 t) w _
          (record { prio = moved.prio; queued = moved.queued; counts = moved.counts }) e

    after_skip :
        can_run ≡ false
        → (u : ℕ)
        → (is_waiting_for_cpu s u && not (u == t)) ≡ is_waiting_for_cpu (sched_switch_threads s t) u
    after_skip stays u = elim (Bool-cases (u == t)) [
      | inl e ↦ rw e (ground arith)
      | inr e ↦ rw e (elim (Bool-cases (u == s.current)) [
        | inl c ↦ let it : u ≡ s.current = ground arith in rw (c, it) (ground (arith, stays))
        | inr c ↦ rw c (ground arith)
      ])
    ]

    after_add :
        (s3 : Sys) (p : ℕ) (q : ThreadQueue)
        → (s3 ≡ set_queue (set_status s s.current ready) p q)
        → can_run ≡ true
        → (u : ℕ)
        → ((is_waiting_for_cpu s u && not (u == t)) || u == s.current)
          ≡ is_waiting_for_cpu (sched_switch_threads s3 t) u
    after_add s3 p q eq can u = rw eq (elim (Bool-cases (u == t)) [
      | inl e ↦ let it : u ≡ t = ground arith in rw (e, it) (ground (arith, other))
      | inr e ↦ rw e (elim (Bool-cases (u == s.current)) [
        | inl c ↦ let it : u ≡ s.current = ground arith in rw (c, it) (ground (arith, can))
        | inr c ↦ rw c (ground arith)
      ])
    ])

    Goal : Type 0
    Goal =
        (s' : Sys) × ((requeue_current s >>= λ s3. done (sched_switch_threads s3 t)) ≡ done s')
        × IsValid s'
        × (s'.current ≡ t)
        × (is_run (s'.threads t).status ≡ true)

    go : (can_run ≡ true) ⊎ (can_run ≡ false) → Goal
    go (inl can) =
        let s2 = set_status s s.current ready in
        let q2 =
          set_thread-IsQueued s s.current (record (s.threads s.current) { status = ready })
            (λ u. is_waiting_for_cpu s u && not (u == t)) refl k in
        let (s3, e, eq, q3) =
          add-IsQueued s2 s.current (λ u. is_waiting_for_cpu s u && not (u == t)) q2
            (ground arith) in
        (
          sched_switch_threads s3 t,
          rw (can, e) refl,
          settle s3 _ q3 (after_add s3 _ _ eq can),
          refl,
          runs s3,
        )
    go (inr stays) =
        (sched_switch_threads s t, rw stays refl, settle s _ k (after_skip stays), refl, runs s)
