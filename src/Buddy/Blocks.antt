-- ===== src/Buddy/Blocks.antt =====
-- page/page-buddy.c: how aligned blocks lie to one another.
use native.Mathlib.Nat.{one-le-pow}
use yatos.Prelude.{
  ℕ, suc, ◌+◌, ◌-◌, ◌*◌, ◌/◌, ◌%◌, ◌^◌, ◌≤◌, ◌<◌, ◌≡◌, refl, sym, ◌∙◌, ap, arith, ◌==◌, Bool-cases,
  inl, inr,
}
use yatos.Bits.Laws.{double}
use yatos.Buddy.Cover.{in_block, in_block-halves}
use yatos.Buddy.Siblings.{
  flip, same_multiple, pow-multiple, twice_pow, mul_mono, le_of_mul, lt_of_mul,
}

pub in_block-bounds : (i k p : ℕ) → in_block i k p ≡ 1 → (i ≤ p) × (p < i + 2 ^ k)
in_block-bounds i k p h = ground arith

pub in_block_of : (i k p : ℕ) → i ≤ p → p < i + 2 ^ k → in_block i k p ≡ 1
in_block_of i k p lo hi = ground arith

-- The lower one of two buddies starts their parent.
even_index : (q k : ℕ) → q % 2 ≡ 0 → (q / 2) * 2 ^ suc k ≡ q * 2 ^ k
even_index q k h =
    let whole : q ≡ 2 * (q / 2) = omega arith in
    omega (arith, twice_pow (q / 2) k, ap (λ x. x * 2 ^ k) whole)

odd_index : (q k : ℕ) → q % 2 ≡ 1 → (q / 2) * 2 ^ suc k + 2 ^ k ≡ q * 2 ^ k
odd_index q k h =
    let whole : q ≡ 2 * (q / 2) + 1 = omega arith in
    omega (arith, twice_pow (q / 2) k, ap (λ x. x * 2 ^ k) whole)

-- A block and its buddy make up their parent.
pub in_block-siblings :
    (q k p : ℕ)
    → in_block (q * 2 ^ k) k p + in_block (flip q * 2 ^ k) k p
      ≡ in_block ((q / 2) * 2 ^ suc k) (suc k) p
in_block-siblings q k p = elim (Bool-cases (q % 2 == 0)) [
  | inl e ↦
      let base = even_index q k (ground arith) in
      let next : (q + 1) * 2 ^ k ≡ q * 2 ^ k + 2 ^ k = omega arith in
      rw (e, base, next) (sym (in_block-halves (q * 2 ^ k) k p))
  | inr e ↦
      let odd : q % 2 ≡ 1 = ground arith in
      let base = odd_index q k odd in
      let prev : (q - 1) * 2 ^ k ≡ (q / 2) * 2 ^ suc k =
        ap (λ x. x * 2 ^ k) (lower q odd) ∙ sym (twice q k) in
      rw (e, ← base, prev) (omega (arith, in_block-halves ((q / 2) * 2 ^ suc k) k p))
]
  where
    lower : (q : ℕ) → q % 2 ≡ 1 → q - 1 ≡ 2 * (q / 2)
    lower q odd = omega arith

    twice : (q k : ℕ) → (q / 2) * 2 ^ suc k ≡ 2 * (q / 2) * 2 ^ k
    twice q k = twice_pow (q / 2) k ∙ grind arith

-- An aligned block of no higher order that covers the start of an aligned block starts there.
pub covering_lower :
    (c o r k : ℕ) → o ≤ k → in_block (c * 2 ^ o) o (r * 2 ^ k) ≡ 1 → c * 2 ^ o ≡ r * 2 ^ k
covering_lower c o r k le h =
    let (d, e) = pow-multiple o k le in
    let (lo, hi) = in_block-bounds (c * 2 ^ o) o (r * 2 ^ k) h in
    let there : r * 2 ^ k ≡ r * d * 2 ^ o = ap (λ t. r * t) e ∙ grind arith in
    let same =
      same_multiple c (r * d) (2 ^ o) (omega (arith, one-le-pow o 2)) (omega arith) (omega arith) in
    ap (λ x. x * 2 ^ o) same ∙ sym there

-- Between even bounds a number lies if the one with its lowest bit flipped does.
sibling_between :
    (m d q : ℕ) → 2 * m ≤ flip q → flip q < 2 * m + 2 * d → (2 * m ≤ q) × (q < 2 * m + 2 * d)
sibling_between m d q lo hi = ground arith

-- One of higher order that covers the start of a block covers the start of its buddy.
pub covering_higher :
    (c o q k : ℕ)
    → k < o
    → in_block (c * 2 ^ o) o (flip q * 2 ^ k) ≡ 1
    → in_block (c * 2 ^ o) o (q * 2 ^ k) ≡ 1
covering_higher c o q k lt h =
    let (d, e) = pow-multiple (suc k) o lt in
    let (lo, hi) = in_block-bounds (c * 2 ^ o) o (flip q * 2 ^ k) h in
    let width : 2 ^ o ≡ 2 * d * 2 ^ k = e ∙ twice_pow d k ∙ grind arith in
    let start : c * 2 ^ o ≡ c * (2 * d) * 2 ^ k = ap (λ t. c * t) width ∙ grind arith in
    let pos : 0 < 2 ^ k = omega (arith, one-le-pow k 2) in
    let above = le_of_mul (c * (2 * d)) (flip q) (2 ^ k) pos (omega arith) in
    let below = lt_of_mul (flip q) (c * (2 * d) + 2 * d) (2 ^ k) (omega arith) in
    let (above', below') = sibling_between (c * d) d q (omega arith) (omega arith) in
    in_block_of (c * 2 ^ o) o (q * 2 ^ k) (omega (arith, mul_mono (2 * (c * d)) q (2 ^ k) above'))
      (omega (arith, mul_mono (q + 1) (2 * (c * d) + 2 * d) (2 ^ k) (omega arith)))

-- Two buddies inside the pool have their parent inside.
pub parent_inside :
    (q k n : ℕ)
    → q * 2 ^ k + 2 ^ k ≤ n
    → flip q * 2 ^ k + 2 ^ k ≤ n
    → (q / 2) * 2 ^ suc k + 2 ^ suc k ≤ n
parent_inside q k n lo hi = elim (Bool-cases (q % 2 == 0)) [
  | inl e ↦
      let flipped : flip q ≡ q + 1 = rw e refl in
      omega (arith, even_index q k (ground arith), double k, hi, ap (λ x. x * 2 ^ k) flipped)
  | inr e ↦ omega (arith, odd_index q k (ground arith), double k, lo)
]
