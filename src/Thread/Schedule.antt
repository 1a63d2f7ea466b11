-- ===== src/Thread/Schedule.antt =====
-- thr/thread-schedule.c: what sched_schedule does.
use yatos.Prelude.{
  ℕ, ◌-◌, ◌<◌, ◌≡◌, refl, ◌⊎◌, inl, inr, arith, true, false, not, ◌&&◌, ◌==◌, if◌then◌else◌,
  Bool-cases, List, [], ◌∷◌, done, ◌>>=◌,
}
use yatos.Thread.State.{is_run, ti_dispatch_disabled, ti_clr_thread_info}
use yatos.Thread.Sched.{
  Sys, set_thread, set_queue, ready_queue_get_next_thread, sched_switch_threads, requeue_current,
  sched_schedule,
}
use yatos.Thread.Queues.{que_of, is_waiting_for_cpu, IsValid, same_threads, take-IsQueued}
use yatos.Thread.Switch.{Next, next_below-Next, set_ti-IsValid, switch_to}

-- The thread that sched_schedule has to choose: the idle thread where all queues are empty, or the first
-- one of the highest queue that is not.
abbrev pub Chosen : Sys → ℕ → Type 0
Chosen s t =
    ((t ≡ s.idle) × ((p : ℕ) → p < 32 → que_of s p ≡ []))
    ⊎ ((p : ℕ) × (rest : List ℕ) × (p < 32)
        × (que_of s p ≡ t ∷ rest)
        × ((q : ℕ) → p < q → q < 32 → que_of s q ≡ []))

-- What sched_schedule does. Where the current thread runs, its dispatch control is cleared and nothing
-- else happens. Otherwise the chosen thread gets the CPU, and runs unless it was the current one.
abbrev pub Schedules : Sys → Sys → Type 0
Schedules s s' =
    if is_run (s.threads s.current).status
    then (s'
        ≡ set_thread s s.current
            (record (s.threads s.current) { ti = ti_clr_thread_info (s.threads s.current).ti }))
    else (Chosen s s'.current
        × ((s'.current ≡ s.current) ⊎ (is_run (s'.threads s'.current).status ≡ true)))

-- the part after the search
pick :
    (s s2 : Sys) (t : ℕ)
    → IsValid s
    → Next s 32 t s2
    → (s' : Sys) × ((if t == s.current
          then done s2
          else (requeue_current s2 >>= λ s3. done (sched_switch_threads s3 t)))
        ≡ done s')
      × IsValid s'
      × Chosen s s'.current
      × ((s'.current ≡ s.current) ⊎ (is_run (s'.threads s'.current).status ≡ true))
pick s s2 t k (inl (i, same, none)) = elim (Bool-cases (t == s.current)) [
  | inl e ↦
      let now : s.current ≡ s.idle = ground (arith, i) in
      (s, rw (e, same) refl, k, inl (now, none), inl refl)
  | inr e ↦
      let (s', eq, v, c, r) =
        switch_to s t (same_threads s (is_waiting_for_cpu s) _ k (λ u. apart u)) e in
      (s', rw (e, same) eq, v, rw c (inl (i, none)), inr (rw c r))
]
  where
    apart : (u : ℕ) → is_waiting_for_cpu s u ≡ (is_waiting_for_cpu s u && not (u == t))
    apart u = rw i (ground arith)
pick s s2 t k (inr (p, rest, small, front, same, above)) =
    let (w, _, q) = take-IsQueued s p t rest (is_waiting_for_cpu s) k small front in
    let other : (t == s.current) ≡ false = ground (arith, w) in
    let s1 = set_queue s p (record { que = rest; cnt = (s.ready_queues p).cnt - 1 }) in
    let (s', eq, v, c, r) = switch_to s1 t q other in
    (s', rw (other, same) eq, v, rw c (inr (p, rest, small, front, above)), inr (rw c r))

-- In a valid system where dispatching is not disabled, sched_schedule ends without a failed assertion:
-- where the current thread runs, nothing changes but that its dispatch control is cleared; otherwise the first thread of the highest queue that is not empty gets
-- it, the idle thread where there is none. The system stays valid: the thread that loses the CPU is on
-- its queue again exactly if it is ready and not the idle thread.
pub sched_schedule-Schedules :
    (s : Sys)
    → IsValid s
    → ti_dispatch_disabled (s.threads s.current).ti ≡ false
    → (s' : Sys) × (sched_schedule s ≡ done s') × IsValid s' × Schedules s s'
unfolding sched_schedule ready_queue_get_next_thread
sched_schedule-Schedules s k enabled =
    let ti = ti_clr_thread_info (s.threads s.current).ti in
    let s1 = set_thread s s.current (record (s.threads s.current) { ti = ti }) in
    let k1 = set_ti-IsValid s ti k in
    elim (Bool-cases (is_run (s.threads s.current).status)) [
      | inl e ↦ (s1, rw (enabled, e) refl, k1, rw e refl)
      | inr e ↦
          let (t, s2, eq, n) = next_below-Next s1 32 (omega arith) in
          let (s', eq', v, c, r) = pick s1 s2 t k1 n in
          (s', rw (enabled, e, eq) eq', v, rw e (c, r))
    ]
