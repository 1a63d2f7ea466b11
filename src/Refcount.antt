-- ===== src/Refcount.antt =====
-- kern/refcount.c and include/kern/refcount.h: reference counters with a deferred delete request.
-- The counter is an int64_t; it is kept here as its 64-bit pattern. The lock around each body is
-- left out: a body runs as one step.
pub mod Laws
mod Tests
use yatos.Prelude.{
  ℕ, ◌+◌, ◌-◌, ◌%◌, ◌^◌, Bool, true, false, ◌&&◌, ltb, ◌==◌, if◌then◌else◌, Rc, ok, enoent, ebusy,
  Exec, ◌>>=◌, ◌>>◌, done, kassert, List, [], ◌∷◌,
}

-- `refcnt`
pub record Refcnt : Type 0 where
  pub counter : ℕ
  pub deleted : Bool

abbrev pub refcnt_initial_val : ℕ
refcnt_initial_val = 1

unfoldable pub refcnt_init : Refcnt
refcnt_init = record { counter = refcnt_initial_val; deleted = false }

-- The reply is the return code and the value stored through `valp`.
unfoldable pub refcnt_get : Refcnt → (Rc × ℕ) × Refcnt
refcnt_get c =
    if c.deleted
    then ((enoent, c.counter), c)
    else ((ok, c.counter), record c { counter = (c.counter + 1) % 2 ^ 64 })

-- `counter > 0` is the test of a signed number: the pattern is not 0 and its top bit is clear.
unfoldable pub refcnt_put : Refcnt → Exec ((Rc × ℕ) × Refcnt)
refcnt_put c = do
  kassert (ltb 0 c.counter && ltb c.counter (2 ^ 63))
  done (
    (if c.counter == refcnt_initial_val && c.deleted then ok else ebusy, c.counter),
    record c { counter = c.counter - 1 },
  )

unfoldable pub refcnt_mark_deleted : Refcnt → Refcnt
refcnt_mark_deleted c = record c { deleted = true }

-- One call of the interface, and a sequence of calls.
pub data Call : Type 0 where
  get put mark : Call

unfoldable pub step : Refcnt → Call → Exec Refcnt
unfolding refcnt_get refcnt_put refcnt_mark_deleted
step c get = done (refcnt_get c).1
step c put = do r ← refcnt_put c; done r.1
step c mark = done (refcnt_mark_deleted c)

unfoldable pub run : Refcnt → List Call → Exec Refcnt
run c [] = done c
run c (k ∷ ks) = step c k >>= λ d. run d ks
