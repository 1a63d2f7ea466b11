-- ===== src/Event/FirstBit.antt =====
-- event/event-mask.c: the search for the lowest event of a mask.
use yatos.Prelude.{
  ℕ, zero, suc, ◌+◌, ◌-◌, ◌*◌, ◌/◌, ◌%◌, ◌<◌, ◌≡◌, refl, sym, ap, ◌∙◌, inl, inr, arith, Bool, true,
  false, ltb, ◌==◌, Bool-cases, List, [], ◌∷◌, length, Option, none, some,
}
use yatos.Bits.{digit}
use yatos.Bits.Laws.{test_bit-eq-digit}
use yatos.IdBitmap.View.{bit_of}
use yatos.Event.Mask.{EventMask, find_in_word, find_in_words, first_hit, ev_mask_find_first_bit}
use yatos.Event.Deliverable.{has, IsMask}

-- The answer of a search among the bits below n: none is set, or the lowest one.
abbrev pub Lowest : (ℕ → Bool) → ℕ → Option ℕ → Type 0
Lowest p n none = (j : ℕ) → j < n → p j ≡ false
Lowest p n (some k) = (k < n) × (p k ≡ true) × ((j : ℕ) → j < k → p j ≡ false)

extend :
    (p : ℕ → Bool) (i : ℕ)
    → ((j : ℕ) → j < i → p j ≡ false)
    → p i ≡ false
    → (j : ℕ) → j < suc i
    → p j ≡ false
extend p i below here j h = elim (Bool-cases (j == i)) [
  | inl e ↦ let same : j ≡ i = ground arith in rw same here
  | inr e ↦ below j (ground arith)
]

find_in_word-Lowest :
    (w j n : ℕ)
    → ((i : ℕ) → i < j → digit w i ≡ false)
    → Lowest (digit w) (j + n) (find_in_word w j n)
unfolding find_in_word
find_in_word-Lowest w j zero below = λ i h. below i (omega arith)
find_in_word-Lowest w j (suc n) below = elim (Bool-cases (digit w j)) [
  | inl hit ↦ rw (test_bit-eq-digit w j, hit) (omega arith, hit, below)
  | inr miss ↦
      let more : (j + 1) + n ≡ j + suc n = omega arith in
      rw (test_bit-eq-digit w j, miss, ← more)
        (find_in_word-Lowest w (j + 1) n (λ i h. extend (digit w) j below miss i (omega arith)))
]

bit_of-first : (w : ℕ) (ws : List ℕ) (j : ℕ) → j < 64 → bit_of (w ∷ ws) j ≡ digit w j
bit_of-first w ws j h =
    let word : j / 64 ≡ 0 = omega arith in
    let place : j % 64 ≡ j = omega arith in rw (word, place) refl

bit_of-later : (w : ℕ) (ws : List ℕ) (j : ℕ) → bit_of (w ∷ ws) (64 + j) ≡ bit_of ws j
bit_of-later w ws j =
    let word : (64 + j) / 64 ≡ suc (j / 64) = omega arith in
    let place : (64 + j) % 64 ≡ j % 64 = omega arith in rw (word, place) refl

-- by words: the first one that has no bit set is skipped
none_in_front :
    (w : ℕ) (ws : List ℕ) (k : ℕ)
    → ((j : ℕ) → j < 64 → digit w j ≡ false)
    → ((j : ℕ) → j < k → bit_of ws j ≡ false)
    → (j : ℕ) → j < 64 + k
    → bit_of (w ∷ ws) j ≡ false
none_in_front w ws k front back j h = elim (Bool-cases (ltb j 64)) [
  | inl e ↦ bit_of-first w ws j (ground arith) ∙ front j (ground arith)
  | inr e ↦
      let split : 64 + (j - 64) ≡ j = ground arith in
      ap (bit_of (w ∷ ws)) (sym split) ∙ bit_of-later w ws (j - 64) ∙ back (j - 64) (ground arith)
]

abbrev shift : ℕ → Option ℕ → Option ℕ
shift i none = none
shift i (some k) = some (i * 64 + k)

shift-zero : (r : Option ℕ) → shift 0 r ≡ r
shift-zero none = refl
shift-zero (some k) = ap some (omega arith)

shift-shift : (i : ℕ) (r : Option ℕ) → shift (i + 1) r ≡ shift i (shift 1 r)
shift-shift i none = refl
shift-shift i (some k) = ap some (omega arith)

Lowest-later :
    (w : ℕ) (ws : List ℕ) (r : Option ℕ)
    → ((j : ℕ) → j < 64 → digit w j ≡ false)
    → Lowest (bit_of ws) (64 * length ws) r
    → Lowest (bit_of (w ∷ ws)) (64 * length (w ∷ ws)) (shift 1 r)
Lowest-later w ws none front l = λ j h. none_in_front w ws (64 * length ws) front l j (omega arith)
Lowest-later w ws (some k) front l =
    (omega (arith, l.0), bit_of-later w ws k ∙ l.1, none_in_front w ws k front l.2)

find_in_words-cons :
    (w : ℕ) (ws : List ℕ) (i : ℕ)
    → find_in_words (w ∷ ws) i ≡ first_hit i (find_in_word w 0 64) (find_in_words ws (i + 1))
unfolding find_in_words
find_in_words-cons w ws i = refl

find_in_words-Lowest :
    (ws : List ℕ) (i : ℕ)
    → (r : Option ℕ) × (find_in_words ws i ≡ shift i r) × Lowest (bit_of ws) (64 * length ws) r
unfolding find_in_words
find_in_words-Lowest [] i = (none, refl, λ j h. absurd (omega arith))
find_in_words-Lowest (w ∷ ws) i =
    go (find_in_word w 0 64) refl (find_in_word-Lowest w 0 64 (λ j h. absurd (omega arith)))
      (find_in_words-Lowest ws (i + 1))
  where
    go :
        (o : Option ℕ)
        → find_in_word w 0 64 ≡ o
        → Lowest (digit w) 64 o
        → ((r : Option ℕ) × (find_in_words ws (i + 1) ≡ shift (i + 1) r)
            × Lowest (bit_of ws) (64 * length ws) r)
        → (r : Option ℕ) × (find_in_words (w ∷ ws) i ≡ shift i r)
          × Lowest (bit_of (w ∷ ws)) (64 * length (w ∷ ws)) r
    go none miss front (r, e, l) = (
      shift 1 r,
      rw (find_in_words-cons w ws i, miss, e) (shift-shift i r),
      Lowest-later w ws r front l,
    )
    go (some k) hit (small, here, below) rest = (
      some k,
      rw (find_in_words-cons w ws i, hit) refl,
      (
        omega arith,
        bit_of-first w ws k small ∙ here,
        λ j h. bit_of-first w ws j (omega arith) ∙ below j h,
      ),
    )

-- ev_mask_find_first_bit finds the lowest event of a mask, or nothing where the mask is empty.
pub ev_mask_find_first_bit-Lowest :
    (m : EventMask) → IsMask m → Lowest (has m) 128 (ev_mask_find_first_bit m)
unfolding ev_mask_find_first_bit
ev_mask_find_first_bit-Lowest m h =
    let (r, e, l) = find_in_words-Lowest m.words 0 in
    let bits : 64 * length m.words ≡ 128 = omega arith in
    let same : shift 0 r ≡ r = shift-zero r in rw (e, same, ← bits) l
