-- ===== src/Refcount/Tests.antt =====
-- Runs of the reference counter, and the laws at concrete counters.
use yatos.Prelude.{◌+◌, ◌≡◌, refl, arith, true, false, [], ◌∷◌, List, enoent, done, stop}
use yatos.Refcount
use yatos.Refcount.{
  Refcnt, refcnt_init, refcnt_get, refcnt_put, refcnt_mark_deleted, Call, get, put, mark, run,
}
use yatos.Refcount.Laws.{freed_once, run_balance}

abbrev two_held : Refcnt
two_held = record { counter = 2; deleted = false }

abbrev last_deleted : Refcnt
last_deleted = record { counter = 1; deleted = true }

abbrev calls : List Call
calls = get ∷ put ∷ get ∷ put ∷ put ∷ []

run_calls :
    run refcnt_init (get ∷ mark ∷ put ∷ put ∷ []) ≡ done (record { counter = 0; deleted = true })
unfolding run refcnt_init Refcount.step
run_calls = refl

freed_once_example :
    (refcnt_get (record last_deleted { counter = 0 })
      ≡ ((enoent, 0), record last_deleted { counter = 0 }))
    × (refcnt_put (record last_deleted { counter = 0 }) ≡ stop)
unfolding refcnt_put run Refcount.step
freed_once_example =
    freed_once last_deleted (record last_deleted { counter = 0 })
      (record last_deleted { counter = 0 }) 1 (get ∷ mark ∷ []) refl refl

run_balance_example : 1 + 3 ≡ 2 + 2
unfolding run Refcount.step
run_balance_example =
    run_balance two_held (record two_held { counter = 1 }) calls refl (omega arith)
      (omega arith, (omega arith, tt)) refl
