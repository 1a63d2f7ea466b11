-- ===== src/Buddy/Siblings.antt =====
-- page/page-buddy.c: the arithmetic of buddies. The buddy of the block of order k at q * 2^k is found by
-- flipping bit k of the index, and the two make up the block of order k + 1 at q / 2 * 2^(k + 1).
use mathlib.Core.Path.{ap₂}
use Prim.Native.Nat.{bit_xor, differ}
use native.Mathlib.Nat.{one-le-pow, mul-div-mul_right}
use native.Mathlib.Decide.{dec_lt}
use yatos.Prelude.{
  ℕ, zero, suc, ◌+◌, ◌-◌, ◌*◌, ◌/◌, ◌%◌, ◌^◌, ◌≤◌, ◌<◌, ◌≡◌, refl, ◌∙◌, ap, arith, ◌==◌,
  if◌then◌else◌,
}
use yatos.Bits.Laws.{double}
use yatos.Bits.Steps.{bit_xor_halves}

-- q with its lowest bit flipped
abbrev pub flip : ℕ → ℕ
flip q = if q % 2 == 0 then q + 1 else q - 1

-- A power of two divides the larger ones.
pub pow-multiple : (k o : ℕ) → k ≤ o → (d : ℕ) × (2 ^ o ≡ d * 2 ^ k)
pow-multiple k zero h = let none_left : k ≡ 0 = omega arith in (1, rw none_left refl)
pow-multiple k (suc o) h = elim (dec_lt o k) [
  | yes p ↦ let same : k ≡ suc o = omega arith in (1, rw same (omega arith))
  | no p ↦
      let (d, e) = pow-multiple k o (omega arith) in
      (2 * d, double o ∙ ap (λ t. 2 * t) e ∙ grind arith)
]

pub mul_mono : (a b t : ℕ) → a ≤ b → a * t ≤ b * t
mul_mono a b t h = grind arith

smaller_multiple : (b a t : ℕ) → 0 < t → b < a → a * t ≤ b * t → ⊥
smaller_multiple b a t pos lt le = omega (arith, mul_mono (b + 1) a t (omega arith))

larger_multiple : (a b t : ℕ) → a < b → b * t < a * t + t → ⊥
larger_multiple a b t lt hi = omega (arith, mul_mono (a + 1) b t (omega arith))

pub le_of_mul : (a b t : ℕ) → 0 < t → a * t ≤ b * t → a ≤ b
le_of_mul a b t pos le = elim (dec_lt b a) [
  | yes p ↦ absurd (smaller_multiple b a t pos p le)
  | no p ↦ omega arith
]

pub lt_of_mul : (a b t : ℕ) → a * t < b * t → a < b
lt_of_mul a b t lt = elim (dec_lt a b) [
  | yes p ↦ p
  | no p ↦ absurd (omega (arith, mul_mono b a t (omega arith)))
]

-- A multiple of t in the interval of t at another multiple is that one.
pub same_multiple : (a b t : ℕ) → 0 < t → a * t ≤ b * t → b * t < a * t + t → a ≡ b
same_multiple a b t pos lo hi = elim (dec_lt b a) [
  | yes p ↦ absurd (smaller_multiple b a t pos p lo)
  | no p ↦ elim (dec_lt a b) [ yes q ↦ absurd (larger_multiple a b t q hi) | no q ↦ omega arith ]
]

differ-zero : (x : ℕ) → differ x 0 ≡ x
differ-zero zero = refl
differ-zero (suc x) = refl

differ-one : (x : ℕ) → x < 2 → differ x 1 ≡ 1 - x
differ-one zero h = refl
differ-one (suc zero) h = refl
differ-one (suc (suc x)) h = absurd (omega arith)

bit_xor-zero_below : (n a : ℕ) → a ≤ n → bit_xor a 0 ≡ a
bit_xor-zero_below n zero h = refl
bit_xor-zero_below zero (suc a) h = absurd (omega arith)
bit_xor-zero_below (suc n) (suc a) h = omega (
  arith,
  bit_xor_halves (suc a) 0,
  differ-zero (suc a % 2),
  bit_xor-zero_below n (suc a / 2) (omega arith),
)

pub twice_pow : (q k : ℕ) → q * 2 ^ suc k ≡ 2 * (q * 2 ^ k)
twice_pow q k = ap (λ t. q * t) (double k) ∙ grind arith

pow_even : (q k : ℕ) → (q * 2 ^ suc k) % 2 ≡ 0
pow_even q k = omega (arith, twice_pow q k)

-- The buddy's index: `cur_idx ^ ( 1 << cur_order )`.
pub bit_xor-two-pow : (k q : ℕ) → bit_xor (q * 2 ^ k) (2 ^ k) ≡ flip q * 2 ^ k
bit_xor-two-pow zero q =
    let whole : q * 2 ^ 0 ≡ q = omega arith in
    rw whole
      (ground (arith, bit_xor_halves q 1, bit_xor-zero_below (q / 2) (q / 2), differ-one (q % 2)))
bit_xor-two-pow (suc k) q =
    let digit_of_one : differ ((q * 2 ^ suc k) % 2) (2 ^ suc k % 2) ≡ 0 =
      ap₂ differ (pow_even q k) (omega (arith, double k)) in
    let halves : bit_xor (q * 2 ^ suc k / 2) (2 ^ suc k / 2) ≡ bit_xor (q * 2 ^ k) (2 ^ k) =
      ap₂ bit_xor (omega (arith, twice_pow q k)) (omega (arith, double k)) in
    omega (
      arith,
      bit_xor_halves (q * 2 ^ suc k) (2 ^ suc k),
      digit_of_one,
      halves,
      bit_xor-two-pow k q,
      twice_pow (flip q) k,
    )

-- The block of the next order that holds both: `cur_idx & mask`.
pub parent_index : (k q : ℕ) → (q * 2 ^ k) / 2 ^ (k + 1) * 2 ^ (k + 1) ≡ (q / 2) * 2 ^ suc k
parent_index k q =
    let next : k + 1 ≡ suc k = omega arith in
    rw (next, double k)
      (ap (λ t. t * (2 * 2 ^ k)) (mul-div-mul_right q 2 (omega (arith, one-le-pow k 2))))
