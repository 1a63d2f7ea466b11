-- ===== src/Refcount/Laws.antt =====
-- kern/refcount.c: balance of gets and puts, and when an object may be freed.
use yatos.Prelude.{
  ℕ, ◌+◌, ◌-◌, ◌^◌, ◌≤◌, ◌<◌, ◌≡◌, arith, true, false, List, [], ◌∷◌, ok, enoent, ebusy, done, stop,
  >>=-eq-done,
}
use yatos.Refcount.{Refcnt, refcnt_get, refcnt_put, Call, get, put, mark, step, run}

-- A counter in use: positive as a signed number, with room for one more reference.
pub record IsHeld (c : Refcnt) : Type 0 where
  pub positive : 0 < c.counter
  pub room : c.counter + 1 < 2 ^ 63

-- A reference that is taken and given back leaves the counter as it was: the second reference is
-- not the last one, and `put` reports the object busy.
pub refcnt_put-refcnt_get :
    (c : Refcnt)
    → IsHeld c
    → c.deleted ≡ false
    → refcnt_put (refcnt_get c).1 ≡ done ((ebusy, c.counter + 1), c)
unfolding refcnt_get refcnt_put
refcnt_put-refcnt_get c v h = ground arith

refcnt_put-freed :
    (c d : Refcnt) (n : ℕ)
    → refcnt_put c ≡ done ((ok, n), d)
    → (c.counter ≡ 1) × (c.deleted ≡ true) × (d.counter ≡ 0) × (d.deleted ≡ true)
unfolding refcnt_put
refcnt_put-freed c d n h = ground arith

step-deleted :
    (c d : Refcnt) (k : Call)
    → c.deleted ≡ true
    → step c k ≡ done d
    → (d.counter ≤ c.counter) × (d.deleted ≡ true)
unfolding step
step-deleted c d get h e = ground arith
step-deleted c d put h e = ground arith
step-deleted c d mark h e = ground arith

run-deleted :
    (c d : Refcnt) (ks : List Call)
    → c.deleted ≡ true
    → run c ks ≡ done d
    → (d.counter ≤ c.counter) × (d.deleted ≡ true)
unfolding run
run-deleted c d [] h e = ground arith
run-deleted c d (k ∷ ks) h e =
    let (m, p, q) = >>=-eq-done (step c k) (λ x. run x ks) e in
    ground (arith, step-deleted c m k h p, run-deleted m d ks (step-deleted c m k h p).1 q)

-- Once `put` has told a caller to free the object, whatever calls follow, no reference is handed
-- out any more, and one more `put` fails its assertion: the object is freed once.
pub freed_once :
    (c d e : Refcnt) (n : ℕ) (ks : List Call)
    → refcnt_put c ≡ done ((ok, n), d)
    → run d ks ≡ done e
    → (refcnt_get e ≡ ((enoent, 0), e)) × (refcnt_put e ≡ stop)
unfolding refcnt_get refcnt_put
freed_once c d e n ks h r =
    let f = refcnt_put-freed c d n h in ground (arith, run-deleted d e ks f.3 r)

-- The gets of a sequence of calls, and its puts.
abbrev pub gets : List Call → ℕ
gets [] = 0
gets (get ∷ ks) = gets ks + 1
gets (_ ∷ ks) = gets ks

abbrev pub puts : List Call → ℕ
puts [] = 0
puts (put ∷ ks) = puts ks + 1
puts (_ ∷ ks) = puts ks

abbrev pub marks : List Call → ℕ
marks [] = 0
marks (mark ∷ ks) = marks ks + 1
marks (_ ∷ ks) = marks ks

-- From `n` references on, no get makes the number of those that are out 2^63 or more.
abbrev pub StaysBelow : ℕ → List Call → Type 0
StaysBelow n [] = Unit {0}
StaysBelow n (get ∷ ks) = (n + 1 < 2 ^ 63) × StaysBelow (n + 1) ks
StaysBelow n (put ∷ ks) = StaysBelow (n - 1) ks
StaysBelow n (mark ∷ ks) = StaysBelow n ks

-- For a counter that is not deleted and calls that never request deletion, in which no get makes the number
-- of references that are out at its time 2^63 or more, and whose assertions hold, the counter keeps the
-- balance of the gets and the puts, in any order.
pub run_balance :
    (c d : Refcnt) (ks : List Call)
    → c.deleted ≡ false
    → marks ks ≡ 0
    → StaysBelow c.counter ks
    → run c ks ≡ done d
    → d.counter + puts ks ≡ c.counter + gets ks
unfolding run step
run_balance c d [] h z room e = ground arith
run_balance c d (get ∷ ks) h z room e =
    ground (arith, room.0, run_balance (record c { counter = c.counter + 1 }) d ks h z room.1)
run_balance c d (put ∷ ks) h z room e =
    ground (arith, run_balance (record c { counter = c.counter - 1 }) d ks h z room)
run_balance c d (mark ∷ ks) h z room e = absurd (omega arith)
