-- ===== src/Mutex.antt =====
-- kern/mutex.c and include/kern/mutex.h: mutexes, optionally recursive. The queue of waiting threads is
-- the object of thr/thread-sync.c; here a call says whether it waits or wakes the waiting threads.
mod Rounds
mod Exclusion
mod Tests
use yatos.Prelude.{
  ℕ, ◌+◌, ◌-◌, ◌%◌, ◌^◌, Bool, true, false, not, ◌&&◌, ltb, ◌==◌, if◌then◌else◌, List, [], ◌∷◌,
  Option, none, some, Exec, done, stop, ◌>>=◌, ◌>>◌, kassert,
}
use yatos.Sync.{SyncReason, obj_destroyed}

-- `mutex`; `recursive` is the flag MTX_FLAG_RECURSIVE
pub record Mutex : Type 0 where
  pub counter : ℕ
  pub owner : Option ℕ
  pub recursive : Bool

unfoldable pub mutex_init : Bool → Mutex
mutex_init mtx_flags = record { counter = 0; owner = none; recursive = mtx_flags }

-- The waiting threads are woken with the reason SYNC_OBJ_DESTROYED.
unfoldable pub mutex_destroy : Mutex → Mutex
mutex_destroy mtx = record mtx { counter = 0; owner = none }

abbrev pub is_owner : Option ℕ → ℕ → Bool
is_owner none t = false
is_owner (some o) t = o == t

unfoldable pub mutex_locked_by_self : Mutex → ℕ → Bool
mutex_locked_by_self mtx current = is_owner mtx.owner current

-- One round of the loop of mutex_lock by the thread `current`: the mutex that it has locked, or `none`
-- where it has to wait.
unfoldable pub lock_round : Mutex → ℕ → Option Mutex
lock_round mtx current =
    if mtx.counter == 0
    then some (record mtx { counter = mtx.counter + 1; owner = some current })
    else if is_owner mtx.owner current && mtx.recursive
    then some (record mtx { counter = (mtx.counter + 1) % 2 ^ 64 })
    else none

abbrev pub is_destroyed : SyncReason → Bool
is_destroyed obj_destroyed = true
is_destroyed _ = false

-- The loop, where each wake-up has a reason and finds the mutex as other threads have left it; `none` if
-- the thread still waits after the last of them.
unfoldable pub mutex_lock : Mutex → ℕ → List (SyncReason × Mutex) → Option (Bool × Mutex)
unfolding lock_round
mutex_lock mtx current [] = elim (lock_round mtx current) [ none ↦ none | some m ↦ some (true, m) ]
mutex_lock mtx current ((rc, found) ∷ wakes) =
    let rest = mutex_lock found current wakes in
    elim (lock_round mtx current) [
      | none ↦ if is_destroyed rc then some (false, found) else rest
      | some m ↦ some (true, m)
    ]

-- The answer says whether the waiting threads are woken.
unfoldable pub mutex_unlock : Mutex → ℕ → Exec (Bool × Mutex)
mutex_unlock mtx current = do
  kassert (ltb 0 mtx.counter)
  kassert (is_owner mtx.owner current)
  done (
      if mtx.counter - 1 == 0
      then (true, record mtx { counter = 0; owner = none })
      else (false, record mtx { counter = mtx.counter - 1 }))
