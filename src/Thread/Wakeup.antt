-- ===== src/Thread/Wakeup.antt =====
-- thr/thread-schedule.c: waking a thread.
use mathlib.Core.Path.{subst}
use yatos.Prelude.{
  sym, ◌<◌, ℕ, ◌≡◌, refl, ap, ◌∙◌, inl, inr, arith, true, false, ◌&&◌, ◌||◌, lt→ltb, ◌==◌,
  if◌then◌else◌, Bool-cases, [], ◌∷◌, ◌++◌, done,
}
use yatos.Thread.State.{
  ThrState, ti_dispatch_disabled, ti_set_delay_dispatch, ready, run, is_ready, is_dormant,
  thr_in_wait, free, dormant, wait, wait_killable, wait_intr, exit, ThreadQueue, tq_add,
}
use yatos.Thread.Sched.{
  Sys, set_status, set_queue, ready_queue_add_nolock, delay_current, sched_wakeup, can_wake,
}
use yatos.Thread.Queues.{
  que_of, is_waiting_for_cpu, IsValid, same_threads, set_thread-IsQueued, add-IsQueued, que_at,
}
use yatos.Thread.Switch.{set_ti-IsValid}

-- Waking a thread that is neither current nor idle, in a state that may be woken (waiting, dormant, ready or
-- running), does not fail an assertion and keeps the system valid: a thread that waits or is dormant
-- becomes ready, at the end of the queue of its priority; for a ready or running one its state and every
-- queue stay as they are.
pub sched_wakeup-Wakes :
    (s : Sys) (t : ℕ)
    → IsValid s
    → (t == s.current) ≡ false
    → (t == s.idle) ≡ false
    → can_wake (s.threads t).status ≡ true
    → (s' : Sys) × (sched_wakeup s t ≡ done s')
      × IsValid s'
      × (if thr_in_wait (s.threads t).status || is_dormant (s.threads t).status
          then (is_ready (s'.threads t).status ≡ true)
            × (que_of s' (s.threads t).prio ≡ que_of s (s.threads t).prio ++ (t ∷ []))
          else ((s'.threads t).status ≡ (s.threads t).status)
            × ((p : ℕ) → que_of s' p ≡ que_of s p))
unfolding sched_wakeup delay_current tq_add
sched_wakeup-Wakes s t k apart busy can =
    elim (Bool-cases (thr_in_wait (s.threads t).status || is_dormant (s.threads t).status)) [
      | inl e ↦
          let s1 = set_status s t ready in
          let asleep : is_ready (s.threads t).status ≡ false = sleeps (s.threads t).status e in
          let q1 =
            set_thread-IsQueued s t (record (s.threads t) { status = ready }) (is_waiting_for_cpu s)
              refl k in
          let (s2, eq, how, q2) = add-IsQueued s1 t (is_waiting_for_cpu s) q1 (rw asleep refl) in
          (
            delay_current s2,
            rw (can, e, eq) refl,
            set_ti-IsValid s2 _ (same_threads s2 _ _ q2 (waits s2 _ _ how)),
            rw e (now_ready s2 _ _ how, at_end s2 how),
          )
      | inr e ↦
          (delay_current s, rw (can, e) refl, set_ti-IsValid s _ k, rw e (rw apart refl, λ p. refl))
    ]
  where
    sleeps : (st : ThrState) → (thr_in_wait st || is_dormant st) ≡ true → is_ready st ≡ false
    sleeps ready h = cc
    sleeps free h = refl
    sleeps dormant h = refl
    sleeps run h = refl
    sleeps wait h = refl
    sleeps wait_killable h = refl
    sleeps wait_intr h = refl
    sleeps exit h = refl

    waits :
        (s2 : Sys) (p : ℕ) (q : ThreadQueue)
        → (s2 ≡ set_queue (set_status s t ready) p q)
        → (u : ℕ) → (is_waiting_for_cpu s u || u == t) ≡ is_waiting_for_cpu s2 u
    waits s2 p q how u = rw how (elim (Bool-cases (u == t)) [
      | inl e ↦ let it : u ≡ t = ground arith in rw (e, it) (ground (arith, apart, busy))
      | inr e ↦ rw e (ground arith)
    ])

    now_ready :
        (s2 : Sys) (p : ℕ) (q : ThreadQueue)
        → (s2 ≡ set_queue (set_status s t ready) p q)
        → is_ready ((delay_current s2).threads t).status ≡ true
    now_ready s2 p q how = let same : (t == t) ≡ true = ground arith in rw (how, apart, same) refl

    at_end :
        (s2 : Sys)
        → (s2
            ≡ set_queue
                (set_status s t ready)
                ((set_status s t ready).threads t).prio
                (tq_add (s.ready_queues ((set_status s t ready).threads t).prio) t))
        → que_of (delay_current s2) (s.threads t).prio ≡ que_of s (s.threads t).prio ++ (t ∷ [])
    at_end s2 how =
        let same : (t == t) ≡ true = ground arith in
        let p = (s.threads t).prio in
        let kept : ((set_status s t ready).threads t).prio ≡ p = rw same refl in
        let here : (p == ((set_status s t ready).threads t).prio) ≡ true = rw kept (ground arith) in
        ap (λ x. que_of x p) how
        ∙ que_at (set_status s t ready) _ _ p here
        ∙ ap (λ i. que_of s i ++ (t ∷ [])) kept

-- The system after a wake-up, written out.
abbrev pub woken : Sys → ℕ → Sys
woken s t =
    let st = (s.threads t).status in
    let p = (s.threads t).prio in
    delay_current (
      if thr_in_wait st || is_dormant st
      then set_queue (set_status s t ready) p (tq_add (s.ready_queues p) t)
      else s)

pub sched_wakeup-woken :
    (s : Sys) (t : ℕ)
    → (s.threads t).prio < 32
    → can_wake (s.threads t).status ≡ true
    → sched_wakeup s t ≡ done (woken s t)
unfolding sched_wakeup ready_queue_add_nolock
sched_wakeup-woken s t small can =
    let st = (s.threads t).status in
    let same : (t == t) ≡ true = ground arith in
    elim (Bool-cases (thr_in_wait st || is_dormant st)) [
      | inl e ↦ rw (can, e, same, lt→ltb (s.threads t).prio 32 small) refl
      | inr e ↦ rw (can, e) refl
    ]

module _ (s : Sys) (t : ℕ) where
  pub woken-current : (woken s t).current ≡ s.current
  unfolding delay_current
  woken-current =
      elim (Bool-cases (thr_in_wait (s.threads t).status || is_dormant (s.threads t).status)) [
        | inl e ↦ rw e refl
        | inr e ↦ rw e refl
      ]

  pub woken-idle : (woken s t).idle ≡ s.idle
  unfolding delay_current
  woken-idle =
      elim (Bool-cases (thr_in_wait (s.threads t).status || is_dormant (s.threads t).status)) [
        | inl e ↦ rw e refl
        | inr e ↦ rw e refl
      ]

  -- Waking changes the status of the thread alone, and only if it waits or is dormant.
  pub woken-status :
      (u : ℕ)
      → ((woken s t).threads u).status ≡ (
          if u == t && (thr_in_wait (s.threads t).status || is_dormant (s.threads t).status)
          then ready
          else (s.threads u).status)
  unfolding delay_current
  woken-status u =
      elim (Bool-cases (thr_in_wait (s.threads t).status || is_dormant (s.threads t).status)) [
        | inl e ↦ rw e (ground arith)
        | inr e ↦ rw e (ground arith)
      ]

  -- and whether dispatching is disabled stays as it is.
  pub woken-disabled :
      (u : ℕ)
      → ti_dispatch_disabled ((woken s t).threads u).ti ≡ ti_dispatch_disabled (s.threads u).ti
  unfolding delay_current ti_dispatch_disabled ti_set_delay_dispatch
  woken-disabled u =
      elim (Bool-cases (thr_in_wait (s.threads t).status || is_dormant (s.threads t).status)) [
        | inl e ↦ rw e (elim (Bool-cases (u == s.current)) [
          | inl c ↦
              let it : u ≡ s.current = ground arith in
              rw (c, it)
                (elim (Bool-cases (s.current == t)) [
                  | inl i ↦ let at : s.current ≡ t = ground arith in rw (i, at) refl
                  | inr i ↦ rw i refl
                ])
          | inr c ↦ rw c (elim (Bool-cases (u == t)) [
            | inl i ↦ let at : u ≡ t = ground arith in rw (i, at) refl
            | inr i ↦ rw i refl
          ])
        ])
        | inr e ↦ rw e (elim (Bool-cases (u == s.current)) [
          | inl c ↦ let it : u ≡ s.current = ground arith in rw (c, it) refl
          | inr c ↦ rw c refl
        ])
      ]

  -- A valid system stays valid.
  pub woken-IsValid :
      IsValid s
      → (t == s.current) ≡ false
      → (t == s.idle) ≡ false
      → can_wake (s.threads t).status ≡ true
      → IsValid (woken s t)
  woken-IsValid k apart busy can =
      let (s', e, v, _) = sched_wakeup-Wakes s t k apart busy can in
      subst IsValid (same_done (sym e ∙ sched_wakeup-woken s t (k.prio t) can)) v
    where
      same_done : {a b : Sys} → done a ≡ done b → a ≡ b
      same_done h = cc
