-- ===== src/Links/Refine.antt =====
-- klib/queue.c: any sequence of queue operations in memory does what it does to a list.
use mathlib.Core.Path.{subst}
use yatos.Prelude.{
  append_nil, ℕ, ◌≡◌, refl, sym, ap, ◌∙◌, inl, inr, arith, Bool, true, false, ◌==◌, if◌then◌else◌,
  Bool-cases, List, [], ◌∷◌, ◌++◌, Option, none, some,
}
use yatos.Links.{
  Mem, list_del, queue_add, queue_add_top, queue_get_top, queue_get_last, queue_ref_top,
  queue_ref_last, queue_is_empty,
}
use yatos.Links.Paths.{has, last, IsQueue}
use yatos.Links.Add.{queue_add-IsQueue, queue_add_top-IsQueue}
use yatos.Links.Delete.{list_del-IsQueue}

-- The calls on one queue; `del` is list_del of a node of the queue.
pub data Call : Type 0 where
  add add_top del : ℕ → Call
  get_top get_last is_empty : Call

-- what a call answers
pub data Reply : Type 0 where
  unit : Reply
  node : ℕ → Reply
  bool : Bool → Reply

unfoldable pub call : Mem → ℕ → Call → Reply × Mem
unfolding queue_add queue_add_top list_del queue_get_top queue_get_last queue_is_empty
call m head (add x) = (unit, queue_add m head x)
call m head (add_top x) = (unit, queue_add_top m head x)
call m head (del x) = (unit, list_del m x)
call m head get_top = let r = queue_get_top m head in (node r.0, r.1)
call m head get_last = let r = queue_get_last m head in (node r.0, r.1)
call m head is_empty = (bool (queue_is_empty m head), m)

-- the specification: `none` where the caller breaks the contract of the call, which is not to add a node
-- that is on the queue, nor to take one from an empty queue or one that is not there
abbrev pub erase : ℕ → List ℕ → List ℕ
erase x [] = []
erase x (y ∷ ys) = let rest = erase x ys in if x == y then ys else y ∷ rest

abbrev pub all_but_last : ℕ → List ℕ → List ℕ
all_but_last x [] = []
all_but_last x (y ∷ ys) = x ∷ all_but_last y ys

unfoldable pub spec : ℕ → List ℕ → Call → Option (Reply × List ℕ)
spec head xs (add x) = if has x (head ∷ xs) then none else some (unit, xs ++ (x ∷ []))
spec head xs (add_top x) = if has x (head ∷ xs) then none else some (unit, x ∷ xs)
spec head xs (del x) = if has x xs then some (unit, erase x xs) else none
spec head [] get_top = none
spec head (x ∷ xs) get_top = some (node x, xs)
spec head [] get_last = none
spec head (x ∷ xs) get_last = some (node (last x xs), all_but_last x xs)
spec head [] is_empty = some (bool true, [])
spec head (x ∷ xs) is_empty = some (bool false, x ∷ xs)

-- a node of a list splits it
split_at :
    (x : ℕ) (xs : List ℕ)
    → has x xs ≡ true
    → (ys : List ℕ) × (zs : List ℕ) × (xs ≡ ys ++ (x ∷ zs)) × (erase x xs ≡ ys ++ zs)
split_at x [] h = cc
split_at x (y ∷ xs) h = elim (Bool-cases (x == y)) [
  | inl e ↦ let it : x ≡ y = ground arith in ([], xs, ap (λ z. z ∷ xs) (sym it), rw e refl)
  | inr e ↦
      let (ys, zs, eq, er) = split_at x xs (ground (arith, h)) in
      (y ∷ ys, zs, ap (λ l. y ∷ l) eq, rw e (ap (λ l. y ∷ l) er))
]

split_last : (x : ℕ) (xs : List ℕ) → (x ∷ xs) ≡ all_but_last x xs ++ (last x xs ∷ [])
split_last x [] = refl
split_last x (y ∷ ys) = ap (λ l. x ∷ l) (split_last y ys)

-- What a call does, against the specification.
abbrev pub Agrees : Mem → ℕ → Call → Option (Reply × List ℕ) → Type 0
Agrees m head c none = Unit {0}
Agrees m head c (some (r, xs)) = ((call m head c).0 ≡ r) × IsQueue (call m head c).1 head xs

delete_at :
    (m : Mem) (head : ℕ) (ys : List ℕ) (x : ℕ) (zs l k : List ℕ)
    → l ≡ ys ++ (x ∷ zs)
    → k ≡ ys ++ zs
    → IsQueue m head l
    → IsQueue (list_del m x) head k
delete_at m head ys x zs l k e f q =
    subst (IsQueue (list_del m x) head) (sym f)
      (list_del-IsQueue m head ys x zs (subst (IsQueue m head) e q))

pub call-Agrees :
    (m : Mem) (head : ℕ) (xs : List ℕ) (c : Call)
    → IsQueue m head xs
    → Agrees m head c (spec head xs c)
unfolding call spec queue_get_top queue_get_last queue_ref_top queue_ref_last queue_is_empty
call-Agrees m head xs (add x) q = elim (Bool-cases (has x (head ∷ xs))) [
  | inl e ↦ rw e tt
  | inr e ↦ rw e (refl, queue_add-IsQueue m head x xs q e)
]
call-Agrees m head xs (add_top x) q = elim (Bool-cases (has x (head ∷ xs))) [
  | inl e ↦ rw e tt
  | inr e ↦ rw e (refl, queue_add_top-IsQueue m head x xs q e)
]
call-Agrees m head xs (del x) q = elim (Bool-cases (has x xs)) [
  | inl e ↦
      let (ys, zs, eq, er) = split_at x xs e in
      rw e (refl, delete_at m head ys x zs xs (erase x xs) eq er q)
  | inr e ↦ rw e tt
]
call-Agrees m head [] get_top q = tt
call-Agrees m head (x ∷ xs) get_top q =
    (ap node q.linked.0, rw q.linked.0 (list_del-IsQueue m head [] x xs q))
call-Agrees m head [] get_last q = tt
call-Agrees m head (x ∷ xs) get_last q = (
  ap node q.prev_head,
  rw q.prev_head (
      delete_at m head (all_but_last x xs) (last x xs) [] (x ∷ xs) (all_but_last x xs)
        (split_last x xs) (sym (append_nil (all_but_last x xs))) q),
)
call-Agrees m head [] is_empty q = (ap bool (ground (arith, q.prev_head, q.next_last)), q)
call-Agrees m head (x ∷ xs) is_empty q = (ap bool (ground (arith, q.linked.0, q.distinct.0)), q)

-- a sequence of calls, in memory and by the specification
unfoldable pub run : Mem → ℕ → List Call → List Reply × Mem
unfolding call
run m head [] = ([], m)
run m head (c ∷ cs) = let r = call m head c in let s = run r.1 head cs in (r.0 ∷ s.0, s.1)

abbrev pub first_then :
    Option (Reply × List ℕ) → (List ℕ → Option (List Reply × List ℕ)) → Option (List Reply × List ℕ)
first_then none f = none
first_then (some (r, xs)) f = elim (f xs) [ none ↦ none | some (rs, ys) ↦ some (r ∷ rs, ys) ]

unfoldable pub run_spec : ℕ → List ℕ → List Call → Option (List Reply × List ℕ)
run_spec head xs [] = some ([], xs)
run_spec head xs (c ∷ cs) = first_then (spec head xs c) (λ ys. run_spec head ys cs)

none_first :
    {rs : List Reply} {ys : List ℕ}
    → ◌≡◌ {A = Option (List Reply × List ℕ)} none (some (rs, ys))
    → ⊥
none_first e = cc

pair_of_some :
    (a b : List Reply × List ℕ) → ◌≡◌ {A = Option (List Reply × List ℕ)} (some a) (some b) → a ≡ b
pair_of_some a b e = cc

first_then-some :
    (r : Reply) (zs : List ℕ) (f : List ℕ → Option (List Reply × List ℕ)) (rs : List Reply)
    (ys : List ℕ)
    → first_then (some (r, zs)) f ≡ some (rs, ys)
    → (ss : List Reply) × (f zs ≡ some (ss, ys)) × ((r ∷ ss) ≡ rs)
first_then-some r zs f rs ys e = go (f zs) refl e
  where
    after : Option (List Reply × List ℕ) → Option (List Reply × List ℕ)
    after o = elim o [ none ↦ none | some (ss, l) ↦ some (r ∷ ss, l) ]

    go :
        (o : Option (List Reply × List ℕ))
        → f zs ≡ o
        → after o ≡ some (rs, ys)
        → (ss : List Reply) × (f zs ≡ some (ss, ys)) × ((r ∷ ss) ≡ rs)
    go none h k = absurd (none_first k)
    go (some (ss, l)) h k =
        let same = pair_of_some (r ∷ ss, l) (rs, ys) k in
        (ss, h ∙ ap (λ t. some (ss, t)) (ap (λ p. p.1) same), ap (λ p. p.0) same)

-- Any sequence of calls that keeps the contract answers in memory what it answers on the list, and
-- leaves in memory the queue of the list that is left.
pub run_refines :
    (m : Mem) (head : ℕ) (xs : List ℕ) (cs : List Call) (rs : List Reply) (ys : List ℕ)
    → IsQueue m head xs
    → run_spec head xs cs ≡ some (rs, ys)
    → ((run m head cs).0 ≡ rs) × IsQueue (run m head cs).1 head ys
unfolding run run_spec
run_refines m head xs [] rs ys q e =
    let same = pair_of_some ([], xs) (rs, ys) e in
    (ap (λ r. r.0) same, subst (λ r. IsQueue m head r.1) same q)
run_refines m head xs (c ∷ cs) rs ys q e =
    go (spec head xs c) refl (call-Agrees m head xs c q)
      (λ zs ss k f. run_refines (call m head c).1 head zs cs ss ys k f)
  where
    go :
        (o : Option (Reply × List ℕ))
        → spec head xs c ≡ o
        → Agrees m head c o
        → ((zs : List ℕ) (ss : List Reply)
            → IsQueue (call m head c).1 head zs
            → run_spec head zs cs ≡ some (ss, ys)
            → ((run (call m head c).1 head cs).0 ≡ ss)
              × IsQueue (run (call m head c).1 head cs).1 head ys)
        → ((run m head (c ∷ cs)).0 ≡ rs) × IsQueue (run m head (c ∷ cs)).1 head ys
    go none f a ih =
        absurd (none_first (ap (λ o. first_then o (λ zs. run_spec head zs cs)) (sym f) ∙ e))
    go (some (r, zs)) f (same, q') ih =
        let (ss, e', er) =
          first_then-some r zs (λ l. run_spec head l cs) rs ys
            (ap (λ o. first_then o (λ l. run_spec head l cs)) (sym f) ∙ e) in
        let (t, k) = ih zs ss q' e' in
        (ap (λ l. (call m head c).0 ∷ l) t ∙ ap (λ h. h ∷ ss) same ∙ er, k)
