-- ===== src/Bits.antt =====
-- 64-bit words as numbers: the bit that C reads by `w & (1ULL << p)`, and the words that
-- `w | (1ULL << p)` and `w & ~(1ULL << p)` leave behind.
pub mod Steps
pub mod Laws
use Prim.Native.Nat.{bit_and, bit_or}
use yatos.Prelude.{ℕ, zero, suc, ◌-◌, ◌/◌, ◌%◌, ◌^◌, ◌==◌, Bool, not}

-- `w & (1ULL << p)` as a truth value
unfoldable pub test_bit : ℕ → ℕ → Bool
test_bit w p = not (bit_and w (2 ^ p) == 0)

-- `w | (1ULL << p)`
unfoldable pub set_bit : ℕ → ℕ → ℕ
set_bit w p = bit_or w (2 ^ p)

-- `w & ~(1ULL << p)`, for 64-bit words
unfoldable pub clear_bit : ℕ → ℕ → ℕ
clear_bit w p = bit_and w (2 ^ 64 - 1 - 2 ^ p)

-- The p-th binary digit, by division.
abbrev pub digit : ℕ → ℕ → Bool
digit w zero = w % 2 == 1
digit w (suc p) = digit (w / 2) p
