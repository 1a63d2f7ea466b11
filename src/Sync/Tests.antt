-- ===== src/Sync/Tests.antt =====
-- Runs of waiting and waking at concrete inputs.
use yatos.Prelude.{
  ℕ, ◌≡◌, refl, arith, Bool, true, false, [], ◌∷◌, some, done, ◌==◌, ◌&&◌, not, if◌then◌else◌,
}
use yatos.Thread.State.{ThrState, free, run, wait, ThreadInfo, ti_dispatch_disabled}
use yatos.Thread.Sched.{Thread}
use yatos.Thread.Queues.{IsValid}
use yatos.Sync.{
  wai_wait, wai_released, wai_delivev, wake_all, World, listed, finish_wait, sync_wake,
}
use yatos.Sync.Finish.{finish_wait-sync_wake, finish_wait-delivev}

abbrev busy : ThreadInfo
busy = record { preempt = 1; preempt_active = false; delayed = false; intrcnt = 0 }

abbrev thread_with : ThrState → ℕ → Thread
thread_with st prio = record { status = st; prio = prio; ti = busy }

-- Thread 1 runs with dispatching disabled; thread 2 waits with its block 5.
abbrev one_waits : World
one_waits = record {
  sys = record {
    threads = λ t.
        if t == 1
        then thread_with run 2
        else if t == 2
        then thread_with wait 3
        else thread_with free 0;
    ready_queues = λ p. record { que = []; cnt = 0 };
    running = some 1;
    current = 1;
    idle = 0;
  };
  blocks = λ b. record { thr = 2; reason = wai_wait };
  obj = record { wait_kind = wait; policy = wake_all; que = 5 ∷ [] };
}

one_waits-IsValid : IsValid one_waits.sys
one_waits-IsValid = record {
  prio = λ t. ground arith;
  queued = λ t p h. ground arith;
  counts = λ p h. ground arith;
}

finish_wait-sync_wake_example :
    (w' : World) × (sync_wake one_waits wai_released ≡ done w')
    × ((pending : Bool) → finish_wait w' 5 pending ≡ (wai_released, w'))
unfolding ti_dispatch_disabled
finish_wait-sync_wake_example =
    finish_wait-sync_wake one_waits wai_released 5 one_waits-IsValid refl ((refl, refl, refl), tt)
      refl refl

finish_wait-delivev_example :
    ((finish_wait one_waits 5 true).0 ≡ wai_delivev)
    × ((c : ℕ)
        → listed c (finish_wait one_waits 5 true).1.obj.que ≡ (listed c (5 ∷ []) && not (c == 5)))
    × ((finish_wait one_waits 5 true).1.sys ≡ one_waits.sys)
    × ((finish_wait one_waits 5 true).1.blocks ≡ one_waits.blocks)
finish_wait-delivev_example = finish_wait-delivev one_waits 5 (refl, tt) refl
