-- ===== src/Mutex/Tests.antt =====
-- Runs of the mutex.
use yatos.Prelude.{ℕ, ◌<◌, ◌≤◌, ◌≡◌, refl, arith, true, false, [], ◌∷◌, some, none, stop}
use yatos.Sync.{wai_released, obj_destroyed}
use yatos.Mutex.{Mutex, lock_round, mutex_lock, mutex_unlock}
use yatos.Mutex.Exclusion.{
  State, put, acquires, blocks, Reach, here, then_step, initial, mutual_exclusion,
}

abbrev locked_by_one : Mutex
locked_by_one = record { counter = 1; owner = some 1; recursive = true }

abbrev one_has_it : State
one_has_it = record { mtx = locked_by_one; held = put (λ t. 0) 1 1; waits = λ t. false }

-- Thread 1 has the mutex and thread 2 waits for it.
abbrev two_waits : State
two_waits = record one_has_it { waits = put (λ t. false) 2 true }

two_waits-Reach : Reach (initial true) two_waits
unfolding lock_round
two_waits-Reach =
    then_step (then_step here (acquires 1 locked_by_one refl (omega arith) refl refl))
      (blocks 2 refl refl refl)

mutual_exclusion_example :
    ((t u : ℕ) → 0 < two_waits.held t → 0 < two_waits.held u → t ≡ u)
    × ((t : ℕ) → 0 < two_waits.held t → two_waits.held t ≡ 1)
    × (true ≡ false → (t : ℕ) → two_waits.held t ≤ 1)
    × ((t : ℕ) → two_waits.waits t ≡ true → (o : ℕ) × (0 < two_waits.held o))
mutual_exclusion_example = mutual_exclusion true two_waits two_waits-Reach

-- A second thread waits until the first one is through, or until the mutex is destroyed.
waits_for_it :
    mutex_lock locked_by_one 2
      ((wai_released, record { counter = 0; owner = none; recursive = true }) ∷ [])
    ≡ some (true, record { counter = 1; owner = some 2; recursive = true })
unfolding mutex_lock lock_round
waits_for_it = refl

loses_it :
    mutex_lock locked_by_one 2
      ((obj_destroyed, record { counter = 0; owner = none; recursive = true }) ∷ [])
    ≡ some (false, record { counter = 0; owner = none; recursive = true })
unfolding mutex_lock lock_round
loses_it = refl

-- Only the owner unlocks.
not_its_own : mutex_unlock locked_by_one 2 ≡ stop
unfolding mutex_unlock
not_its_own = refl
