-- ===== src/Timer/Lists.antt =====
-- The interface of the tree of call-outs, filled by sorted lists.
use yatos.Prelude.{
  ℕ, ◌<◌, ◌≡◌, refl, inl, inr, arith, Bool, true, false, ltb, ◌==◌, Bool-cases, List, [], ◌∷◌,
  Option, none, some,
}
use yatos.Timer.Trees.{
  Callout, Tree, IsTree, AllAbove, IsSorted, has_key, put, drop_key, first, first_above,
}

AllAbove-weaken : (d e : ℕ) (cs : List Callout) → d < e → AllAbove e cs → AllAbove d cs
AllAbove-weaken d e [] h a = tt
AllAbove-weaken d e (c ∷ cs) h a = (omega (arith, a.0), AllAbove-weaken d e cs h a.1)

AllAbove-put :
    (e : ℕ) (c : Callout) (cs : List Callout) → e < c.expire → AllAbove e cs → AllAbove e (put c cs)
AllAbove-put e c [] h a = (h, tt)
AllAbove-put e c (d ∷ ds) h a = elim (Bool-cases (ltb c.expire d.expire)) [
  | inl i ↦ rw i (h, a)
  | inr i ↦ rw i (a.0, AllAbove-put e c ds h a.1)
]

pub put-IsSorted :
    (c : Callout) (cs : List Callout)
    → has_key c.expire cs ≡ false
    → IsSorted cs
    → IsSorted (put c cs)
put-IsSorted c [] f s = (tt, tt)
put-IsSorted c (d ∷ ds) f s = elim (Bool-cases (ltb c.expire d.expire)) [
  | inl i ↦
      let below : c.expire < d.expire = ground arith in
      rw i ((below, AllAbove-weaken c.expire d.expire ds below s.0), s)
  | inr i ↦
      let above : d.expire < c.expire = ground (arith, f) in
      rw i (AllAbove-put d.expire c ds above s.0, put-IsSorted c ds (ground (arith, f)) s.1)
]

AllAbove-drop_key : (e k : ℕ) (cs : List Callout) → AllAbove e cs → AllAbove e (drop_key k cs)
AllAbove-drop_key e k [] a = tt
AllAbove-drop_key e k (c ∷ cs) a = elim (Bool-cases (c.expire == k)) [
  | inl i ↦ rw i a.1
  | inr i ↦ rw i (a.0, AllAbove-drop_key e k cs a.1)
]

pub drop_key-IsSorted : (k : ℕ) (cs : List Callout) → IsSorted cs → IsSorted (drop_key k cs)
drop_key-IsSorted k [] s = tt
drop_key-IsSorted k (c ∷ cs) s = elim (Bool-cases (c.expire == k)) [
  | inl i ↦ rw i s.1
  | inr i ↦ rw i (AllAbove-drop_key c.expire k cs s.0, drop_key-IsSorted k cs s.1)
]

abbrev pub SortedList : Type 0
SortedList = (cs : List Callout) × IsSorted cs

abbrev insert_if :
    (t : SortedList) (c : Callout) (b : Bool) → has_key c.expire t.0 ≡ b → Option SortedList
insert_if t c true e = none
insert_if t c false e = some (put c t.0, put-IsSorted c t.0 e t.1)

abbrev pub list_tree : Tree
list_tree = record {
  Carrier = SortedList;
  items = λ t. t.0;
  insert = λ t c. insert_if t c (has_key c.expire t.0) refl;
  remove = λ t c. (drop_key c.expire t.0, drop_key-IsSorted c.expire t.0 t.1);
  min = λ t. first t.0;
  next = λ t c. first_above c.expire t.0;
}

insert_if-none :
    (t : SortedList) (c : Callout) (b : Bool) (e : has_key c.expire t.0 ≡ b)
    → b ≡ true
    → insert_if t c b e ≡ none
insert_if-none t c true e h = refl
insert_if-none t c false e h = cc

insert_if-some :
    (t : SortedList) (c : Callout) (b : Bool) (e : has_key c.expire t.0 ≡ b)
    → b ≡ false
    → (t' : SortedList) × (insert_if t c b e ≡ some t') × (t'.0 ≡ put c t.0)
insert_if-some t c true e h = absurd (ground arith)
insert_if-some t c false e h = ((put c t.0, put-IsSorted c t.0 e t.1), refl, refl)

pub list_tree-IsTree : IsTree list_tree
list_tree-IsTree = record {
  sorted = λ t. t.1;
  insert_old = λ t c h. insert_if-none t c (has_key c.expire t.0) refl h;
  insert_new = λ t c h. insert_if-some t c (has_key c.expire t.0) refl h;
  remove_items = λ t c. refl;
  min_items = λ t. refl;
  next_items = λ t c. refl;
}
