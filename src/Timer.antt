-- ===== src/Timer.antt =====
-- tim/timer.c: call-outs at a tick of the system clock. The red-black tree of the call-outs is third-party
-- code: `Tree` is its interface, with the order of the elements as `items`.
pub mod Trees
mod Lists
mod Fire
mod Waits
mod Tests
use yatos.Prelude.{
  ℕ, zero, suc, ◌+◌, ◌/◌, ◌%◌, ◌^◌, Bool, true, false, leb, ltb, ◌==◌, if◌then◌else◌, List, [], ◌∷◌,
  Option, none, some, Exec, done, stop, kassert, ◌>>◌, ◌>>=◌,
}
use yatos.Sync.{SyncReason, wai_delivev, is_wait_reason, unlist}
use yatos.Timer.Trees.{Callout, Tree}

abbrev pub hz : ℕ
hz = 100

-- `uptime.tick_cnt` after one more tick
unfoldable pub next_tick : ℕ → ℕ
next_tick tick_cnt = (tick_cnt + 1) % 2 ^ 64

unfoldable pub ms_to_ticks : ℕ → ℕ
ms_to_ticks ms = ms / (1000 / hz) + 1

unfoldable pub init_timer_callout : ℕ → Callout
init_timer_callout private_inf = record { tmout = 0; expire = 0; data_of = private_inf }

-- the assertion that RB_INSERT has found no element with the key
abbrev pub inserted : {C : Type 0} → Option C → Exec C
inserted none = stop
inserted (some q) = done q

-- Making the call-out of a wait of `outms` that begins at tick `uptime`: the part that tim_wait and
-- wait_time_obj_no_schedule share. RB_INSERT gives back an element with the same key, if there is one,
-- and the assertion after it fails then.
unfoldable pub set_callout : (T : Tree) → T.Carrier → ℕ → ℕ → ℕ → Exec T.Carrier
unfolding init_timer_callout ms_to_ticks
set_callout T que uptime outms private_inf =
    let cb = record (init_timer_callout private_inf) {
      tmout = outms;
      expire = (ms_to_ticks outms + uptime) % 2 ^ 64;
    } in
    inserted (T.insert que cb)

abbrev called : ℕ → {C : Type 0} → Option (List ℕ × C) → Option (List ℕ × C)
called d none = none
called d (some r) = some (d ∷ r.0, r.1)

-- The loop of _tim_invoke_callout, from the call-out `callout_ref` on: the data of the call-outs that are
-- called, in order, and the tree that is left. `none` is a loop that has not ended.
unfoldable pub callout_loop :
    (T : Tree) → ℕ → T.Carrier → Option Callout → ℕ → Option (List ℕ × T.Carrier)
callout_loop T fuel que none cur_tick = some ([], que)
callout_loop T zero que (some c) cur_tick = none
callout_loop T (suc fuel) que (some c) cur_tick =
    let later = callout_loop T fuel que (T.next que c) cur_tick in
    let after = callout_loop T fuel (T.remove que c) (T.next que c) cur_tick in
    if leb c.expire cur_tick then called c.data_of after else later

unfoldable pub tim_invoke_callout : (T : Tree) → ℕ → T.Carrier → ℕ → Option (List ℕ × T.Carrier)
unfolding callout_loop
tim_invoke_callout T fuel que cur_tick = callout_loop T fuel que (T.min que) cur_tick

-- A wait with a time-out: its block on the object and its block on the timer, with their reasons, and the
-- blocks queued on the object and on the timer.
pub record TimedWait : Type 0 where
  pub obj_blk : ℕ
  pub timer_blk : ℕ
  pub obj_reason : SyncReason
  pub timer_reason : SyncReason
  pub obj_que : List ℕ
  pub timer_que : List ℕ

abbrev pub is_nil : List ℕ → Bool
is_nil [] = true
is_nil (b ∷ bs) = false

-- The reason that the wait ends with, its blocks off the queues, and the tree; `none` is the variable
-- `res` that has not been set. `pending`: whether ev_has_pending_events says so of the thread.
unfoldable pub finish_wait_time_obj :
    (T : Tree)
    → T.Carrier
    → Bool
    → TimedWait
    → Callout
    → Exec (Option SyncReason × TimedWait × T.Carrier)
finish_wait_time_obj T que pending w cb =
    let early = if pending then some wai_delivev else none in
    let res = if is_wait_reason w.obj_reason then early else some w.obj_reason in
    let w1 = record w {
      obj_que = unlist w.obj_blk w.obj_que;
      timer_que = unlist w.timer_blk w.timer_que;
    } in
    let end : Option SyncReason × T.Carrier =
      if is_wait_reason w.timer_reason
      then (res, T.remove que cb)
      else if is_wait_reason w.obj_reason
      then (some w.timer_reason, que)
      else (res, que) in
    kassert (is_nil w1.timer_que) >> done (end.0, w1, end.1)
