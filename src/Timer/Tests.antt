-- ===== src/Timer/Tests.antt =====
-- Runs of the call-outs on sorted lists.
use yatos.Prelude.{ℕ, ◌≡◌, refl, arith, true, false, [], ◌∷◌, some, done}
use yatos.Sync.{wai_wait, wai_delivev}
use yatos.Timer.{
  ms_to_ticks, init_timer_callout, set_callout, tim_invoke_callout, finish_wait_time_obj, TimedWait,
}
use yatos.Timer.Trees.{Callout, has_key}
use yatos.Timer.Lists.{SortedList, list_tree, list_tree-IsTree}
use yatos.Timer.Fire.{tim_invoke_callout-fires}
use yatos.Timer.Waits.{expire_of, not_early, finish_wait_time_obj-reason}

abbrev callout_at : ℕ → ℕ → Callout
callout_at tick private_inf = record { tmout = 10; expire = tick; data_of = private_inf }

-- call-outs at the ticks 3, 5 and 9
abbrev three : SortedList
three = (
  callout_at 3 31 ∷ callout_at 5 51 ∷ callout_at 9 91 ∷ [],
  ((omega arith, (omega arith, tt)), ((omega arith, tt), (tt, tt))),
)

tim_invoke_callout-fires_example :
    (q : SortedList) × (tim_invoke_callout list_tree 3 three 5 ≡ some (31 ∷ 51 ∷ [], q))
    × (q.0 ≡ callout_at 9 91 ∷ [])
tim_invoke_callout-fires_example =
    tim_invoke_callout-fires list_tree list_tree-IsTree 5 3 three (omega arith)

-- an event has come for a thread with the block 1 on an object, behind block 4, and 2 on the timer
abbrev waiting : TimedWait
waiting = record {
  obj_blk = 1;
  timer_blk = 2;
  obj_reason = wai_wait;
  timer_reason = wai_wait;
  obj_que = 4 ∷ 1 ∷ [];
  timer_que = 2 ∷ [];
}

finish_wait_time_obj-reason_example :
    (w' : TimedWait) × (q : SortedList) × (finish_wait_time_obj list_tree three true waiting
        (callout_at 5 51)
      ≡ done (some wai_delivev, w', q))
    × (w'.obj_que ≡ 4 ∷ [])
    × (w'.timer_que ≡ [])
    × (has_key 5 q.0 ≡ false)
finish_wait_time_obj-reason_example =
    finish_wait_time_obj-reason list_tree list_tree-IsTree three true waiting (callout_at 5 51) refl

abbrev no_callouts : SortedList
no_callouts = ([], tt)

-- the tree after a wait of 15 ms that begins at tick 7
abbrev one_wait : SortedList
one_wait = (record { tmout = 15; expire = 9; data_of = 71 } ∷ [], (tt, tt))

set_callout_one : set_callout list_tree no_callouts 7 15 71 ≡ done one_wait
unfolding set_callout ms_to_ticks init_timer_callout
set_callout_one = refl

not_early_example :
    (r : SortedList) × (tim_invoke_callout list_tree 1 one_wait 8 ≡ some ([], r))
    × (has_key (expire_of list_tree list_tree-IsTree no_callouts 7 15 71) r.0 ≡ true)
not_early_example =
    not_early list_tree list_tree-IsTree no_callouts 7 15 71 (omega arith) one_wait set_callout_one
      8 1 (omega arith) (omega arith)
