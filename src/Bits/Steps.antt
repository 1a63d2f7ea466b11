-- ===== src/Bits/Steps.antt =====
-- Bitwise operations by halves: the parity of the result, and the result of the halved arguments. The
-- native operations are defined with a bound on the number of digits, which is shown not to matter.
use Prim.Native.Nat.{
  digits, bit_and, bit_or, bit_xor, differ, bit_and-bitwise, bit_or-bitwise, bit_xor-bitwise,
}
use yatos.Prelude.{
  ℕ, zero, suc, ◌+◌, ◌-◌, ◌*◌, ◌/◌, ◌%◌, ◌≤◌, min, max, ◌≡◌, refl, sym, ap, ◌∙◌, arith,
}

module _ (z : ℕ → ℕ) (f : ℕ → ℕ → ℕ) where
  -- One more digit than needed changes nothing,
  one_more : (bound a b : ℕ) → a ≤ bound → digits z f (suc bound) a b ≡ digits z f bound a b
  one_more zero zero b small = refl
  one_more zero (suc a) b small = absurd (omega arith)
  one_more (suc bound) zero b small = refl
  one_more (suc bound) (suc a) b small = rw (one_more bound (suc a / 2) (b / 2) (omega arith))

  -- nor do several.
  several_more :
      (extra bound a b : ℕ) → a ≤ bound → digits z f (extra + bound) a b ≡ digits z f bound a b
  several_more zero bound a b small = let same : 0 + bound ≡ bound = omega arith in rw same refl
  several_more (suc extra) bound a b small =
      let next : suc extra + bound ≡ suc (extra + bound) = omega arith in
      rw next (one_more (extra + bound) a b (omega arith) ∙ several_more extra bound a b small)

  halved : (a b : ℕ) → digits z f a (suc a / 2) (b / 2) ≡ digits z f (suc a / 2) (suc a / 2) (b / 2)
  halved a b =
      let half = suc a / 2 in
      let split : (a - half) + half ≡ a = omega arith in
      ap (λ k. digits z f k half (b / 2)) (sym split)
      ∙ several_more (a - half) half half (b / 2) (omega arith)

pub bit_xor_halves : (a b : ℕ) → bit_xor a b ≡ differ (a % 2) (b % 2) + 2 * bit_xor (a / 2) (b / 2)
bit_xor_halves zero b = simp bit_xor-bitwise (omega arith)
bit_xor_halves (suc a) b = simp bit_xor-bitwise (omega (arith, halved (λ y. y) differ a b))

pub bit_or_halves : (a b : ℕ) → bit_or a b ≡ max (a % 2) (b % 2) + 2 * bit_or (a / 2) (b / 2)
bit_or_halves zero b = simp bit_or-bitwise (omega arith)
bit_or_halves (suc a) b = simp bit_or-bitwise (omega (arith, halved (λ y. y) max a b))

pub bit_and_halves : (a b : ℕ) → bit_and a b ≡ min (a % 2) (b % 2) + 2 * bit_and (a / 2) (b / 2)
bit_and_halves zero b = simp bit_and-bitwise (omega arith)
bit_and_halves (suc a) b = simp bit_and-bitwise (omega (arith, halved (λ y. 0) min a b))
