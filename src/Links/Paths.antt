-- ===== src/Links/Paths.antt =====
-- Which lists of nodes a queue in memory stands for.
use yatos.Prelude.{
  ℕ, ◌≡◌, refl, ap, ◌∙◌, inl, inr, arith, Bool, true, false, ◌||◌, ◌==◌, Bool-cases, List, [], ◌∷◌,
  ◌++◌,
}
use yatos.Links.{Mem}

abbrev pub has : ℕ → List ℕ → Bool
has p [] = false
has p (x ∷ xs) = (p == x) || has p xs

abbrev pub IsDistinct : List ℕ → Type 0
IsDistinct [] = Unit {0}
IsDistinct (x ∷ xs) = (has x xs ≡ false) × IsDistinct xs

abbrev pub last : ℕ → List ℕ → ℕ
last a [] = a
last a (x ∷ xs) = last x xs

-- The nodes a, x, y, ... point to each other in both directions.
abbrev pub Linked : Mem → ℕ → List ℕ → Type 0
Linked m a [] = Unit {0}
Linked m a (x ∷ xs) = (m.next a ≡ x) × (m.prev x ≡ a) × Linked m x xs

-- The queue at `head` holds xs in this order: the nodes are linked from the head on and back to it, and
-- are distinct.
pub record IsQueue (m : Mem) (head : ℕ) (xs : List ℕ) : Type 0 where
  pub linked : Linked m head xs
  pub next_last : m.next (last head xs) ≡ head
  pub prev_head : m.prev head ≡ last head xs
  pub distinct : IsDistinct (head ∷ xs)

pub has-append : (p : ℕ) (xs ys : List ℕ) → has p (xs ++ ys) ≡ (has p xs || has p ys)
has-append p [] ys = refl
has-append p (x ∷ xs) ys = ground (arith, has-append p xs ys)

pub last-append : (a : ℕ) (xs : List ℕ) (y : ℕ) (ys : List ℕ) → last a (xs ++ (y ∷ ys)) ≡ last y ys
last-append a [] y ys = refl
last-append a (x ∷ xs) y ys = last-append x xs y ys

pub has-last : (a : ℕ) (xs : List ℕ) → has (last a xs) (a ∷ xs) ≡ true
has-last a [] = ground arith
has-last a (x ∷ xs) = ground (arith, has-last x xs)

-- what a path reads: `next` of all nodes but the last, `prev` of all but the first
pub Linked-frame :
    (m n : Mem) (a : ℕ) (xs : List ℕ)
    → IsDistinct (a ∷ xs)
    → ((p : ℕ) → has p (a ∷ xs) ≡ true → (p == last a xs) ≡ false → n.next p ≡ m.next p)
    → ((p : ℕ) → has p xs ≡ true → n.prev p ≡ m.prev p)
    → Linked m a xs
    → Linked n a xs
Linked-frame m n a [] d nx pv l = tt
Linked-frame m n a (x ∷ xs) d nx pv (e, f, l) = (
  nx a (ground arith) (apart (has-last x xs)) ∙ e,
  pv x (ground arith) ∙ f,
  Linked-frame m n x xs d.1 (λ p h k. nx p (ground (arith, h)) k) (λ p h. pv p (ground (arith, h)))
      l,
)
  where
    apart : has (last x xs) (x ∷ xs) ≡ true → (a == last x xs) ≡ false
    apart h = elim (Bool-cases (a == last x xs)) [
      | inl i ↦
          let it : a ≡ last x xs = ground arith in
          absurd (ground (arith, d.0, ap (λ q. has q (x ∷ xs)) it, h))
      | inr i ↦ i
    ]

pub Linked-append_left :
    (m : Mem) (a : ℕ) (xs : List ℕ) (y : ℕ) (ys : List ℕ)
    → Linked m a (xs ++ (y ∷ ys))
    → Linked m a xs × (m.next (last a xs) ≡ y) × (m.prev y ≡ last a xs) × Linked m y ys
Linked-append_left m a [] y ys l = (tt, l.0, l.1, l.2)
Linked-append_left m a (x ∷ xs) y ys (e, f, l) =
    let (k, i, j, r) = Linked-append_left m x xs y ys l in ((e, f, k), i, j, r)

pub Linked-append :
    (m : Mem) (a : ℕ) (xs ys : List ℕ)
    → Linked m a xs
    → Linked m (last a xs) ys
    → Linked m a (xs ++ ys)
Linked-append m a [] ys l k = k
Linked-append m a (x ∷ xs) ys (e, f, l) k = (e, f, Linked-append m x xs ys l k)
