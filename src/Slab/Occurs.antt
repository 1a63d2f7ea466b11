-- ===== src/Slab/Occurs.antt =====
-- How often a number stands in a list: the slabs on the queues of a cache, the heads of free objects.
use yatos.Prelude.{
  ℕ, zero, suc, ◌+◌, ◌*◌, ◌≤◌, ◌<◌, ◌≡◌, ◌≢◌, refl, ap, inl, inr, arith, true, false, ◌==◌,
  if◌then◌else◌, Bool-cases, List, [], ◌∷◌, ◌++◌, length,
}
use yatos.Buddy.{remove}
use yatos.Slab.Objects.{heads_from}

abbrev pub occ : ℕ → List ℕ → ℕ
occ s [] = 0
occ s (t ∷ ts) = let rest = occ s ts in if t == s then suc rest else rest

pub occ-append_self : (s : ℕ) (l : List ℕ) → occ s (l ++ (s ∷ [])) ≡ suc (occ s l)
occ-append_self s [] = let e : (s == s) ≡ true = ground arith in rw e refl
occ-append_self s (x ∷ l) = elim (Bool-cases (x == s)) [
  | inl e ↦ rw e (ap suc (occ-append_self s l))
  | inr e ↦ rw e (occ-append_self s l)
]

pub occ-append_other : (s t : ℕ) (l : List ℕ) → t ≢ s → occ t (l ++ (s ∷ [])) ≡ occ t l
occ-append_other s t [] h = let e : (s == t) ≡ false = ground (arith, h) in rw e refl
occ-append_other s t (x ∷ l) h = elim (Bool-cases (x == t)) [
  | inl e ↦ rw e (ap suc (occ-append_other s t l h))
  | inr e ↦ rw e (occ-append_other s t l h)
]

pub occ-remove_self : (s : ℕ) (l : List ℕ) → occ s (remove s l) ≡ 0
occ-remove_self s [] = refl
occ-remove_self s (x ∷ l) = elim (Bool-cases (x == s)) [
  | inl e ↦ rw e (occ-remove_self s l)
  | inr e ↦ rw (e, e) (occ-remove_self s l)
]

pub occ-remove_other : (s t : ℕ) (l : List ℕ) → t ≢ s → occ t (remove s l) ≡ occ t l
occ-remove_other s t [] h = refl
occ-remove_other s t (x ∷ l) h = elim (Bool-cases (x == s)) [
  | inl e ↦
      let other : (x == t) ≡ false = ground (arith, e, h) in
      rw (e, other) (occ-remove_other s t l h)
  | inr e ↦ rw e (ap (λ n. if x == t then suc n else n) (occ-remove_other s t l h))
]

pub length-heads_from : (n a size : ℕ) → length (heads_from n a size) ≡ n
length-heads_from zero a size = refl
length-heads_from (suc n) a size = ap suc (length-heads_from n (a + size) size)

heads_from-below : (n a size h : ℕ) → h < a → occ h (heads_from n a size) ≡ 0
heads_from-below zero a size h lt = refl
heads_from-below (suc n) a size h lt =
    let e : (a == h) ≡ false = ground (arith, lt) in
    rw e (heads_from-below n (a + size) size h (omega arith))

pub heads_from-once : (n a size h : ℕ) → 0 < size → occ h (heads_from n a size) ≤ 1
heads_from-once zero a size h pos = omega arith
heads_from-once (suc n) a size h pos = elim (Bool-cases (a == h)) [
  | inl e ↦
      let lt : h < a + size = ground (arith, e, pos) in
      let none_left = heads_from-below n (a + size) size h lt in rw e (omega (arith, none_left))
  | inr e ↦ rw e (heads_from-once n (a + size) size h pos)
]

pub heads_from-heads :
    (n a size h : ℕ) → 0 < occ h (heads_from n a size) → (j : ℕ) × (j < n) × (h ≡ a + j * size)
heads_from-heads zero a size h pos = absurd (omega arith)
heads_from-heads (suc n) a size h pos = elim (Bool-cases (a == h)) [
  | inl e ↦ (0, omega arith, ground (arith, e))
  | inr e ↦
      let later = rw e at pos in
      let (j, lt, at) = heads_from-heads n (a + size) size h later in
      (suc j, omega arith, ground (arith, at))
]
