-- ===== src/Links/Distinct.antt =====
-- Lists of distinct addresses.
use yatos.Prelude.{
  ℕ, ◌≡◌, refl, ap, ◌∙◌, inl, inr, arith, true, false, ◌==◌, Bool-cases, List, [], ◌∷◌, ◌++◌,
}
use yatos.Links.Paths.{has, IsDistinct, has-append}

-- What is in a list is not what is outside it.
pub has-other : (p q : ℕ) (l : List ℕ) → has p l ≡ true → has q l ≡ false → (p == q) ≡ false
has-other p q l h k = elim (Bool-cases (p == q)) [
  | inl e ↦ let it : p ≡ q = ground arith in absurd (ground (arith, ap (λ r. has r l) it))
  | inr e ↦ e
]

pub distinct_apart :
    (p : ℕ) (xs ys : List ℕ) → IsDistinct (xs ++ ys) → has p xs ≡ true → has p ys ≡ false
distinct_apart p [] ys d h = cc
distinct_apart p (x ∷ xs) ys d h = elim (Bool-cases (p == x)) [
  | inl e ↦
      let it : p ≡ x = ground arith in
      ap (λ q. has q ys) it ∙ ground (arith, has-append x xs ys, d.0)
  | inr e ↦ distinct_apart p xs ys d.1 (ground (arith, h))
]

pub IsDistinct-remove :
    (xs : List ℕ) (y : ℕ) (ys : List ℕ)
    → IsDistinct (xs ++ (y ∷ ys))
    → IsDistinct (xs ++ ys) × (has y (xs ++ ys) ≡ false)
IsDistinct-remove [] y ys d = (d.1, d.0)
IsDistinct-remove (x ∷ xs) y ys d =
    let (e, f) = IsDistinct-remove xs y ys d.1 in
    let out : has x (xs ++ ys) ≡ false =
      ground (arith, has-append x xs ys, has-append x xs (y ∷ ys), d.0) in
    let apart : (y == x) ≡ false = ground (arith, has-append x xs (y ∷ ys), d.0) in
    ((out, e), ground (arith, apart, f))

pub IsDistinct-snoc :
    (xs : List ℕ) (y : ℕ) → IsDistinct xs → has y xs ≡ false → IsDistinct (xs ++ (y ∷ []))
IsDistinct-snoc [] y d h = (refl, tt)
IsDistinct-snoc (x ∷ xs) y d h =
    (ground (arith, has-append x xs (y ∷ []), d.0), IsDistinct-snoc xs y d.1 (ground (arith, h)))

pub IsDistinct-left : (xs ys : List ℕ) → IsDistinct (xs ++ ys) → IsDistinct xs
IsDistinct-left [] ys d = tt
IsDistinct-left (x ∷ xs) ys d = (ground (arith, has-append x xs ys, d.0), IsDistinct-left xs ys d.1)

pub IsDistinct-right : (xs ys : List ℕ) → IsDistinct (xs ++ ys) → IsDistinct ys
IsDistinct-right [] ys d = d
IsDistinct-right (x ∷ xs) ys d = IsDistinct-right xs ys d.1
