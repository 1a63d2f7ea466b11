-- ===== src/Thread/Sched.antt =====
-- thr/thread-schedule.c: the scheduler. The address space, the stacks and the registers that a switch
-- changes are the hardware's; what is kept is which thread runs.
use yatos.Prelude.{
  ℕ, zero, suc, Bool, not, ◌&&◌, ◌||◌, ltb, ◌==◌, if◌then◌else◌, Option, none, some, Exec, done,
  ◌>>=◌, ◌>>◌, kassert,
}
use yatos.Thread.State.{
  ThrState, ready, run, is_ready, is_run, is_dormant, thr_in_wait, ThreadInfo, ti_dispatch_disabled,
  ti_set_delay_dispatch, ti_clr_thread_info, ThreadQueue, tq_init, tq_add, tq_get_top, tq_is_empty,
}

abbrev pub thr_max_prio : ℕ
thr_max_prio = 32

-- the fields of a thread that the scheduler reads
pub record Thread : Type 0 where
  pub status : ThrState
  pub prio : ℕ
  pub ti : ThreadInfo

-- The threads, `ready_queues`, `running_threads` of the CPU, `current` and the idle thread.
pub record Sys : Type 0 where
  pub threads : ℕ → Thread
  pub ready_queues : ℕ → ThreadQueue
  pub running : Option ℕ
  pub current : ℕ
  pub idle : ℕ

abbrev pub set_thread : Sys → ℕ → Thread → Sys
set_thread s t v = record s { threads = λ u. if u == t then v else s.threads u }

abbrev pub set_status : Sys → ℕ → ThrState → Sys
set_status s t st = set_thread s t (record (s.threads t) { status = st })

abbrev pub set_queue : Sys → ℕ → ThreadQueue → Sys
set_queue s prio q = record s { ready_queues = λ p. if p == prio then q else s.ready_queues p }

unfoldable pub ready_queue_get_top_nolock : Sys → ℕ → Exec (ℕ × Sys)
unfolding tq_get_top
ready_queue_get_top_nolock s prio = do
  kassert (ltb prio thr_max_prio)
  r ← tq_get_top (s.ready_queues prio)
  done (r.0, set_queue s prio r.1)

unfoldable pub ready_queue_add_nolock : Sys → ℕ → Exec Sys
unfolding tq_add
ready_queue_add_nolock s thr = do
  kassert (ltb (s.threads thr).prio thr_max_prio)
  done (set_queue s (s.threads thr).prio (tq_add (s.ready_queues (s.threads thr).prio) thr))

unfoldable pub ready_queue_is_empty_nolock : Sys → ℕ → Exec Bool
unfolding tq_is_empty
ready_queue_is_empty_nolock s prio = do
  kassert (ltb prio thr_max_prio)
  done (tq_is_empty (s.ready_queues prio))

-- the search from priority n - 1 down
unfoldable pub next_below : Sys → ℕ → Exec (ℕ × Sys)
unfolding ready_queue_is_empty_nolock ready_queue_get_top_nolock
next_below s zero = done (s.idle, s)
next_below s (suc n) =
    let rest = next_below s n in
    ready_queue_is_empty_nolock s n >>= λ e. if e then rest else ready_queue_get_top_nolock s n

unfoldable pub ready_queue_get_next_thread : Sys → Exec (ℕ × Sys)
unfolding next_below
ready_queue_get_next_thread s = next_below s thr_max_prio

unfoldable pub delay_current : Sys → Sys
unfolding ti_set_delay_dispatch
delay_current s =
    let c = s.threads s.current in
    set_thread s s.current (record c { ti = ti_set_delay_dispatch c.ti })

abbrev pub can_wake : ThrState → Bool
can_wake st = thr_in_wait st || is_ready st || is_run st || is_dormant st

unfoldable pub sched_wakeup : Sys → ℕ → Exec Sys
unfolding ready_queue_add_nolock delay_current
sched_wakeup s thr =
    let st = (s.threads thr).status in
    kassert (can_wake st)
    >> (if thr_in_wait st || is_dormant st
        then (ready_queue_add_nolock (set_status s thr ready) thr >>= λ s'. done (delay_current s'))
        else done (delay_current s))

-- The assertion that follows the switch in sched_schedule reads the status that is set here.
unfoldable pub sched_switch_threads : Sys → ℕ → Sys
sched_switch_threads s next = record (set_status s next run) { current = next; running = some next }

-- `current` goes back on its ready queue if it can still run and is not the idle thread.
unfoldable pub requeue_current : Sys → Exec Sys
unfolding ready_queue_add_nolock
requeue_current s =
    let st = (s.threads s.current).status in
    if not (s.current == s.idle) && (is_run st || is_ready st)
    then ready_queue_add_nolock (set_status s s.current ready) s.current
    else done s

unfoldable pub sched_schedule : Sys → Exec Sys
unfolding ti_dispatch_disabled ti_clr_thread_info ready_queue_get_next_thread requeue_current
    sched_switch_threads
sched_schedule s =
    let c = s.threads s.current in
    let s1 = set_thread s s.current (record c { ti = ti_clr_thread_info c.ti }) in
    kassert (not (ti_dispatch_disabled c.ti))
    >> (if is_run c.status
        then done s1
        else (ready_queue_get_next_thread s1 >>= λ r.
            if r.0 == s.current
            then done r.1
            else (requeue_current r.1 >>= λ s3. done (sched_switch_threads s3 r.0))))

unfoldable pub thr_yield : Sys → Exec Sys
unfolding ti_dispatch_disabled delay_current sched_schedule
thr_yield s =
    let s1 = set_status s s.current ready in
    if ti_dispatch_disabled (s.threads s.current).ti
    then done (delay_current s1)
    else sched_schedule s1

unfoldable pub sched_init_subsys : Sys → Sys
unfolding tq_init
sched_init_subsys s = record s {
  ready_queues = λ p. if ltb p thr_max_prio then tq_init else s.ready_queues p;
  running = none;
}
