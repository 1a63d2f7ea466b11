-- ===== src/Bits/Laws.antt =====
-- What testing, setting and clearing one bit mean for the digits of a word.
use Prim.Native.Nat.{bit_and, bit_or, bit_and-bitwise}
use native.Mathlib.Nat.{pow-suc, one-le-pow}
use yatos.Prelude.{
  ℕ, zero, suc, ◌-◌, ◌*◌, ◌/◌, ◌^◌, ◌≤◌, ◌<◌, ◌==◌, if◌then◌else◌, ◌≡◌, refl, arith, true, false,
}
use yatos.Bits.{test_bit, set_bit, clear_bit, digit}
use yatos.Bits.Steps.{bit_and_halves, bit_or_halves}

bit_and-zero_below : (n a : ℕ) → a ≤ n → bit_and a 0 ≡ 0
bit_and-zero_below n zero h = omega (arith, bit_and_halves 0 0)
bit_and-zero_below zero (suc a) h = absurd (omega arith)
bit_and-zero_below (suc n) (suc a) h =
    omega (arith, bit_and_halves (suc a) 0, bit_and-zero_below n (suc a / 2) (omega arith))

bit_or-zero_below : (n a : ℕ) → a ≤ n → bit_or a 0 ≡ a
bit_or-zero_below n zero h = refl
bit_or-zero_below zero (suc a) h = absurd (omega arith)
bit_or-zero_below (suc n) (suc a) h =
    omega (arith, bit_or_halves (suc a) 0, bit_or-zero_below n (suc a / 2) (omega arith))

pub bit_and-zero : (a : ℕ) → bit_and a 0 ≡ 0
bit_and-zero a = bit_and-zero_below a a (omega arith)

pub bit_or-zero : (a : ℕ) → bit_or a 0 ≡ a
bit_or-zero a = bit_or-zero_below a a (omega arith)

pub double : (p : ℕ) → 2 ^ suc p ≡ 2 * 2 ^ p
double p = omega (arith, pow-suc 2 p)

-- `w & (1 << p)` is 0, or 1 << p where the digit is set.
bit_and-two-pow : (w p : ℕ) → bit_and w (2 ^ p) ≡ (if digit w p then 2 ^ p else 0)
bit_and-two-pow w zero = ground (arith, bit_and_halves w 1, bit_and-zero (w / 2))
bit_and-two-pow w (suc p) =
    ground (arith, double p, bit_and_halves w (2 ^ suc p), bit_and-two-pow (w / 2) p)

pub test_bit-eq-digit : (w p : ℕ) → test_bit w p ≡ digit w p
unfolding test_bit
test_bit-eq-digit w p = ground (arith, bit_and-two-pow w p, one-le-pow p 2)

set_bit-half-zero : (w : ℕ) → set_bit w 0 / 2 ≡ w / 2
unfolding set_bit
set_bit-half-zero w = omega (arith, bit_or_halves w 1, bit_or-zero (w / 2))

set_bit-half-suc : (w p : ℕ) → set_bit w (suc p) / 2 ≡ set_bit (w / 2) p
unfolding set_bit
set_bit-half-suc w p = ground (arith, double p, bit_or_halves w (2 ^ suc p))

suc-==-suc : (a b : ℕ) → (suc a == suc b) ≡ (a == b)
suc-==-suc a b = ground arith

pub digit-set_bit : (w p q : ℕ) → digit (set_bit w p) q ≡ (if p == q then true else digit w q)
unfolding set_bit
digit-set_bit w zero zero = ground (arith, bit_or_halves w 1, bit_or-zero (w / 2))
digit-set_bit w zero (suc q) = rw (set_bit-half-zero w) (ground arith)
digit-set_bit w (suc p) zero = ground (arith, double p, bit_or_halves w (2 ^ suc p))
digit-set_bit w (suc p) (suc q) =
    rw (set_bit-half-suc w p, suc-==-suc p q) (digit-set_bit (w / 2) p q)

-- `w & mask`, where the mask has the n low digits but the p-th
without : ℕ → ℕ → ℕ → ℕ
without n w p = bit_and w (2 ^ n - 1 - 2 ^ p)

low_digits_half : (n w : ℕ) → bit_and w (2 ^ suc n - 1) / 2 ≡ bit_and (w / 2) (2 ^ n - 1)
low_digits_half n w = ground (arith, double n, one-le-pow n 2, bit_and_halves w (2 ^ suc n - 1))

digit-low_digits : (n w q : ℕ) → q < n → digit (bit_and w (2 ^ n - 1)) q ≡ digit w q
digit-low_digits zero w q h = absurd (omega arith)
digit-low_digits (suc n) w zero h =
    ground (arith, double n, one-le-pow n 2, bit_and_halves w (2 ^ suc n - 1))
digit-low_digits (suc n) w (suc q) h =
    rw (low_digits_half n w) (digit-low_digits n (w / 2) q (omega arith))

pow-lt : (p n : ℕ) → p < n → 2 ^ p < 2 ^ n
pow-lt p zero h = absurd (omega arith)
pow-lt zero (suc n) h = omega (arith, double n, one-le-pow n 2)
pow-lt (suc p) (suc n) h = omega (arith, double n, double p, pow-lt p n)

without-half-zero : (n w : ℕ) → without (suc n) w 0 / 2 ≡ bit_and (w / 2) (2 ^ n - 1)
unfolding without
without-half-zero n w =
    ground (arith, double n, one-le-pow n 2, bit_and_halves w (2 ^ suc n - 1 - 1))

without-half-suc : (n w p : ℕ) → p < n → without (suc n) w (suc p) / 2 ≡ without n (w / 2) p
unfolding without
without-half-suc n w p h =
    ground (arith, double n, double p, pow-lt p n h, bit_and_halves w (2 ^ suc n - 1 - 2 ^ suc p))

digit-without :
    (n w p q : ℕ) → p < n → q < n → digit (without n w p) q ≡ (if p == q then false else digit w q)
unfolding without
digit-without zero w p q hp hq = absurd (omega arith)
digit-without (suc n) w zero zero hp hq =
    ground (arith, double n, one-le-pow n 2, bit_and_halves w (2 ^ suc n - 1 - 1))
digit-without (suc n) w zero (suc q) hp hq =
    rw (without-half-zero n w) (ground (arith, digit-low_digits n (w / 2) q))
digit-without (suc n) w (suc p) zero hp hq =
    ground (arith, double n, double p, pow-lt p n, bit_and_halves w (2 ^ suc n - 1 - 2 ^ suc p))
digit-without (suc n) w (suc p) (suc q) hp hq =
    rw (without-half-suc n w p (omega arith), suc-==-suc p q)
      (digit-without n (w / 2) p q (omega arith) (omega arith))

pub digit-clear_bit :
    (w p q : ℕ) → p < 64 → q < 64 → digit (clear_bit w p) q ≡ (if p == q then false else digit w q)
unfolding clear_bit without
digit-clear_bit w p q hp hq = digit-without 64 w p q hp hq

-- A word of n digits, none of them set, is 0.
pub zero_of_digits : (n w : ℕ) → w < 2 ^ n → ((q : ℕ) → q < n → digit w q ≡ false) → w ≡ 0
zero_of_digits zero w h all = omega arith
zero_of_digits (suc n) w h all = ground (
  arith,
  all 0 (omega arith),
  zero_of_digits n (w / 2) (omega (arith, double n)) (λ q hq. all (suc q) (omega arith)),
)

pub digit-zero : (q : ℕ) → digit 0 q ≡ false
digit-zero zero = refl
digit-zero (suc q) = digit-zero q

-- The operations keep a word within its width.
set_bit-lt_below : (n w p : ℕ) → p < n → w < 2 ^ n → set_bit w p < 2 ^ n
unfolding set_bit
set_bit-lt_below zero w p hp h = absurd (omega arith)
set_bit-lt_below (suc n) w zero hp h =
    omega (arith, bit_or_halves w 1, bit_or-zero (w / 2), double n)
set_bit-lt_below (suc n) w (suc p) hp h = ground (
  arith,
  double n,
  double p,
  bit_or_halves w (2 ^ suc p),
  set_bit-lt_below n (w / 2) p (omega arith),
)

bit_and-le_below : (n a b : ℕ) → a ≤ n → bit_and a b ≤ a
bit_and-le_below n zero b h = simp bit_and-bitwise (omega arith)
bit_and-le_below zero (suc a) b h = absurd (omega arith)
bit_and-le_below (suc n) (suc a) b h =
    omega (arith, bit_and_halves (suc a) b, bit_and-le_below n (suc a / 2) (b / 2) (omega arith))

pub set_bit-lt : (w p : ℕ) → p < 64 → w < 2 ^ 64 → set_bit w p < 2 ^ 64
set_bit-lt w p hp h = set_bit-lt_below 64 w p hp h

pub clear_bit-le : (w p : ℕ) → clear_bit w p ≤ w
unfolding clear_bit
clear_bit-le w p = bit_and-le_below w w (2 ^ 64 - 1 - 2 ^ p) (omega arith)
