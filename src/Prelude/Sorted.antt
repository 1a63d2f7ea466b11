-- ===== src/Prelude/Sorted.antt =====
-- Lists sorted by a key: what a search tree with distinct keys holds, in order.
use Prim.Native.Nat.{ℕ, ◌<◌}
use mathlib.Core.Bool.{Bool, false, ◌||◌}
use mathlib.Core.List.{List, [], ◌∷◌}
use yatos.Prelude.Tests.{ltb, ◌==◌, if◌then◌else◌}

module _ {ℓ} {A : Type ℓ} (key : A → ℕ) where
  abbrev pub AllAbove : ℕ → List A → Type 0
  AllAbove k [] = Unit {0}
  AllAbove k (x ∷ xs) = (k < key x) × AllAbove k xs

  abbrev pub IsSorted : List A → Type 0
  IsSorted [] = Unit {0}
  IsSorted (x ∷ xs) = AllAbove (key x) xs × IsSorted xs

  abbrev pub has_key : ℕ → List A → Bool
  has_key k [] = false
  has_key k (x ∷ xs) = (key x == k) || has_key k xs

  abbrev pub put : A → List A → List A
  put x [] = x ∷ []
  put x (y ∷ ys) = let rest = put x ys in if ltb (key x) (key y) then x ∷ y ∷ ys else y ∷ rest
