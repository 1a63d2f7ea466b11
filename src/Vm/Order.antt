-- ===== src/Vm/Order.antt =====
-- vm/vm.c: the areas of an address space stand in order, with no page in two of them.
use yatos.Prelude.{
  ℕ, ◌+◌, ◌%◌, ◌≤◌, ◌<◌, ◌≡◌, refl, inl, inr, ◌⊎◌, arith, true, false, ltb, ◌==◌, Bool-cases, List,
  [], ◌∷◌,
}
use yatos.Prelude.Sorted.{AllAbove, IsSorted, has_key, put}
use yatos.Vm.Space.{page_size, kern_vma_base, page_start, page_up, Vma}

-- An area that ends before the last page below the kernel's part.
abbrev pub IsArea : Vma → Type 0
IsArea v = (v.start ≤ v.end) × (v.end + page_size ≤ kern_vma_base)

-- The second area starts on a later page than those of the first.
abbrev pub Below : Vma → Vma → Type 0
Below u v = (u.start < v.start) × (page_up u.end ≤ page_start v.start)

abbrev pub AllBelow : Vma → List Vma → Type 0
AllBelow u [] = Unit {0}
AllBelow u (v ∷ vs) = Below u v × AllBelow u vs

abbrev pub IsChain : List Vma → Type 0
IsChain [] = Unit {0}
IsChain (v ∷ vs) = IsArea v × AllBelow v vs × IsChain vs

pub page_up-bounds :
    (a : ℕ)
    → a + page_size ≤ kern_vma_base
    → (a ≤ page_up a) × (page_up a < a + page_size) × (page_up a % page_size ≡ 0)
page_up-bounds a h = ground arith

pub page_start-bounds :
    (a : ℕ) → (page_start a ≤ a) × (a < page_start a + page_size) × (page_start a % page_size ≡ 0)
page_start-bounds a = omega arith

-- an address at or below a page boundary is rounded up to at most that
pub page_up-le :
    (a b : ℕ) → a + page_size ≤ kern_vma_base → b % page_size ≡ 0 → a ≤ b → page_up a ≤ b
page_up-le a b h aligned le = ground arith

pub le-page_start : (a b : ℕ) → b % page_size ≡ 0 → b ≤ a → b ≤ page_start a
le-page_start a b aligned le = omega arith

pub Below-trans : (u v w : Vma) → IsArea v → Below u v → Below v w → Below u w
Below-trans u v w a h g =
    let mid = page_start-bounds v.start in
    let up = page_up-bounds v.end a.1 in omega (arith, mid, up)

AllBelow-trans : (u v : Vma) (ws : List Vma) → IsArea v → Below u v → AllBelow v ws → AllBelow u ws
AllBelow-trans u v [] a h g = tt
AllBelow-trans u v (w ∷ ws) a h g = (Below-trans u v w a h g.0, AllBelow-trans u v ws a h g.1)

AllBelow-put :
    (u v : Vma) (ws : List Vma) → Below u v → AllBelow u ws → AllBelow u (put (λ x. x.start) v ws)
AllBelow-put u v [] h g = (h, tt)
AllBelow-put u v (w ∷ ws) h g = elim (Bool-cases (ltb v.start w.start)) [
  | inl i ↦ rw i (h, g)
  | inr i ↦ rw i (g.0, AllBelow-put u v ws h g.1)
]

-- An area that is apart from all others.
abbrev pub AllApart : Vma → List Vma → Type 0
AllApart v [] = Unit {0}
AllApart v (w ∷ ws) = (Below v w ⊎ Below w v) × AllApart v ws

pub put-IsChain :
    (v : Vma) (ws : List Vma)
    → IsArea v
    → AllApart v ws
    → IsChain ws
    → IsChain (put (λ x. x.start) v ws)
put-IsChain v [] a p c = (a, tt, tt)
put-IsChain v (w ∷ ws) a (first, p) (aw, below, c) = elim first [
  | inl h ↦
      let before : ltb v.start w.start ≡ true = ground (arith, h.0) in
      rw before (a, (h, AllBelow-trans v w ws aw h below), (aw, below, c))
  | inr h ↦
      let after : ltb v.start w.start ≡ false = ground (arith, h.0) in
      rw after (aw, AllBelow-put w v ws h below, put-IsChain v ws a p c)
]

AllAbove-chain : (u : Vma) (ws : List Vma) → AllBelow u ws → AllAbove (λ x. x.start) u.start ws
AllAbove-chain u [] h = tt
AllAbove-chain u (w ∷ ws) h = (h.0.0, AllAbove-chain u ws h.1)

pub IsChain-IsSorted : (ws : List Vma) → IsChain ws → IsSorted (λ x. x.start) ws
IsChain-IsSorted [] c = tt
IsChain-IsSorted (w ∷ ws) c = (AllAbove-chain w ws c.1, IsChain-IsSorted ws c.2)

pub AllApart-has_key :
    (v : Vma) (ws : List Vma) → AllApart v ws → has_key (λ x. x.start) v.start ws ≡ false
AllApart-has_key v [] p = refl
AllApart-has_key v (w ∷ ws) (first, p) =
    let other : (w.start == v.start) ≡ false = elim first [
      | inl h ↦ ground (arith, h.0)
      | inr h ↦ ground (arith, h.0)
    ] in
    rw other (AllApart-has_key v ws p)
