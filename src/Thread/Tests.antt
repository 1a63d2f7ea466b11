-- ===== src/Thread/Tests.antt =====
-- Runs of the scheduler at concrete inputs.
use yatos.Prelude.{ℕ, ◌≡◌, refl, arith, true, false, ◌==◌, if◌then◌else◌, [], ◌∷◌, some, done}
use yatos.Thread.State.{
  ThrState, free, dormant, ready, wait, is_ready, ThreadInfo, ti_dispatch_disabled,
}
use yatos.Thread.Sched.{Thread, Sys, sched_wakeup, sched_schedule}
use yatos.Thread.Queues.{que_of, IsValid}
use yatos.Thread.Schedule.{Schedules, sched_schedule-Schedules}
use yatos.Thread.Wakeup.{sched_wakeup-Wakes}

abbrev quiet : ThreadInfo
quiet = record { preempt = 0; preempt_active = false; delayed = false; intrcnt = 0 }

abbrev thread_with : ThrState → ℕ → Thread
thread_with st prio = record { status = st; prio = prio; ti = quiet }

-- Thread 0 is the idle thread, thread 1 has just begun to wait, thread 2 is ready at priority 3, and
-- thread 3, of the same priority, has not been started.
abbrev waiting_system : Sys
waiting_system = record {
  threads = λ t.
      if t == 1
      then thread_with wait 2
      else (if t == 2
          then thread_with ready 3
          else (if t == 3 then thread_with dormant 3 else thread_with free 0));
  ready_queues = λ p. record { que = if p == 3 then 2 ∷ [] else []; cnt = if p == 3 then 1 else 0 };
  running = some 1;
  current = 1;
  idle = 0;
}

waiting_system-IsValid : IsValid waiting_system
waiting_system-IsValid = record {
  prio = λ t. ground arith;
  queued = λ t p h. ground arith;
  counts = λ p h. ground arith;
}

sched_schedule-Schedules_example :
    (s' : Sys) × (sched_schedule waiting_system ≡ done s')
    × IsValid s'
    × Schedules waiting_system s'
unfolding ti_dispatch_disabled
sched_schedule-Schedules_example =
    sched_schedule-Schedules waiting_system waiting_system-IsValid refl

sched_wakeup-Wakes_example :
    (s' : Sys) × (sched_wakeup waiting_system 3 ≡ done s')
    × IsValid s'
    × ((is_ready (s'.threads 3).status ≡ true) × (que_of s' 3 ≡ 2 ∷ 3 ∷ []))
sched_wakeup-Wakes_example =
    sched_wakeup-Wakes waiting_system 3 waiting_system-IsValid refl refl refl
