-- ===== src/IdBitmap/Find.antt =====
-- kern/id-bitmap.c: find_free_id and idbmap_put_id against the set of ids in use.
use native.Mathlib.Decide.{dec_le}
use yatos.Prelude.{
  ℕ, zero, suc, ◌+◌, ◌-◌, ◌*◌, ◌/◌, ◌%◌, ◌≤◌, ◌<◌, ◌≡◌, refl, sym, ◌∙◌, ap, ◌⊎◌, inl, inr, arith,
  true, false, ltb, ltb→lt, ◌==◌, if◌then◌else◌, Bool-cases, List, length, get_or, set, Option,
  none, some, done,
}
use yatos.Bits.{set_bit}
use yatos.IdBitmap.Map.{IdMap, find_clear, find_free_id, use_id, min_id, max_id}
use yatos.IdBitmap.View.{
  bit_of, used_in, used, HasWords, IsValid, shape_of, read_in, test_bit-read, bit_of-set_bit,
  use_id_lem, use_id-IsValid,
}

-- What a search of the n ids from id on may answer: none, where all are in use, or the lowest that is
-- not.
abbrev pub FirstClear : Option (List ℕ) → ℕ → ℕ → Option ℕ → Type 0
FirstClear ws id n none = (j : ℕ) → id ≤ j → j < id + n → used_in ws j ≡ true
FirstClear ws id n (some k) =
    (id ≤ k)
    × (k < id + n)
    × (used_in ws k ≡ false)
    × ((j : ℕ) → id ≤ j → j < k → used_in ws j ≡ true)

first_here :
    (ws : Option (List ℕ)) (id n : ℕ) → used_in ws id ≡ false → FirstClear ws id (suc n) (some id)
first_here ws id n h = (omega arith, omega arith, h, λ j p q. absurd (omega arith))

extend :
    (ws : Option (List ℕ)) (id k : ℕ)
    → used_in ws id ≡ true
    → ((j : ℕ) → id + 1 ≤ j → j < k → used_in ws j ≡ true)
    → (j : ℕ) → id ≤ j
    → j < k
    → used_in ws j ≡ true
extend ws id k h rest j p q = elim (Bool-cases (id == j)) [
  | inl e ↦ let same : id ≡ j = ground arith in rw (← same) h
  | inr e ↦ rest j (ground arith) q
]

first_later :
    (ws : Option (List ℕ)) (id n : ℕ) (r : Option ℕ)
    → used_in ws id ≡ true
    → FirstClear ws (id + 1) n r
    → FirstClear ws id (suc n) r
first_later ws id n none h rest = extend ws id (id + suc n) h (λ j p q. rest j p (omega arith))
first_later ws id n (some k) h rest = (omega arith, omega arith, rest.2, extend ws id k h rest.3)

find_clear-first :
    (ws : List ℕ) (id n : ℕ)
    → id + n ≤ 64 * length ws
    → (r : Option ℕ) × (find_clear (some ws) id n ≡ done r) × FirstClear (some ws) id n r
unfolding find_clear
find_clear-first ws id zero h = (none, refl, λ j p q. absurd (omega arith))
find_clear-first ws id (suc n) h =
    let here = read_in ws (id / 64) (omega arith) in
    elim (Bool-cases (bit_of ws id)) [
      | inl taken ↦
          let (r, e, f) = find_clear-first ws (id + 1) n (omega arith) in
          (r, rw (here, test_bit-read ws id, taken) e, first_later (some ws) id n r taken f)
      | inr free ↦
          (some id, rw (here, test_bit-read ws id, free) refl, first_here (some ws) id n free)
    ]

find_clear_within :
    (ws : Option (List ℕ)) (size ids lo hi : ℕ)
    → HasWords ws size ids
    → hi ≤ ids
    → (r : Option ℕ) × (find_clear ws lo (hi - lo) ≡ done r) × FirstClear ws lo (hi - lo) r
find_clear_within none size ids lo hi h fits =
    let empty : hi - lo ≡ 0 = omega arith in
    (none, rw empty (unfold find_clear in refl), λ j p q. absurd (omega arith))
find_clear_within (some ws) size ids lo hi h fits = elim (dec_le lo hi) [
  | yes p ↦ find_clear-first ws lo (hi - lo) (omega (arith, h.0, h.2))
  | no p ↦
      let empty : hi - lo ≡ 0 = omega arith in
      (none, rw empty (unfold find_clear in refl), λ j p q. absurd (omega arith))
]

-- The answer of find_free_id: no id, where the range exceeds the map or all of it is in use, and
-- then nothing changes; or the lowest free id of the range, which alone comes into use.
abbrev pub Finds : IdMap → ℕ → Option ℕ → IdMap → Type 0
Finds m idflags none m' =
    (m' ≡ m)
    × ((m.nr_ids < max_id m idflags)
        ⊎ ((j : ℕ) → min_id m idflags ≤ j → j < max_id m idflags → used m j ≡ true))
Finds m idflags (some k) m' =
    (min_id m idflags ≤ k)
    × (k < max_id m idflags)
    × (max_id m idflags ≤ m.nr_ids)
    × (used m k ≡ false)
    × ((j : ℕ) → min_id m idflags ≤ j → j < k → used m j ≡ true)
    × ((j : ℕ) → used m' j ≡ (if k == j then true else used m j))
    × IsValid m'
    × (m'.ref_count ≡ m.ref_count)
    × (m'.nr_ids ≡ m.nr_ids)
    × (m'.reserved_ids ≡ m.reserved_ids)

words_of : (m : IdMap) → IsValid m → 0 < m.nr_ids → (ws : List ℕ) × (m.words ≡ some ws)
words_of m v h = ground arith

take_found :
    (m : IdMap) (idflags k : ℕ)
    → IsValid m
    → max_id m idflags ≤ m.nr_ids
    → FirstClear m.words (min_id m idflags) (max_id m idflags - min_id m idflags) (some k)
    → (m' : IdMap) × (use_id m k ≡ done m') × Finds m idflags (some k) m'
take_found m idflags k v fits f =
    let (ws, e) = words_of m v (omega (arith, f.0, f.1)) in
    let shape = shape_of m ws v e in
    let inside : k / 64 < length ws = omega (arith, f.0, f.1, shape.0, shape.2) in
    (
      record m { words = some (set ws (k / 64) (set_bit (get_or ws (k / 64) 0) (k % 64))) },
      use_id_lem m ws k e inside,
      (
        f.0,
        omega (arith, f.0, f.1),
        fits,
        f.2,
        f.3,
        λ j.
            bit_of-set_bit ws k j inside
            ∙ ap (λ b. if k == j then true else b) (sym (ap (λ o. used_in o j) e)),
        use_id-IsValid m ws k v e inside,
        refl,
        refl,
        refl,
      ),
    )

answer :
    (m : IdMap) (idflags : ℕ) (r : Option ℕ)
    → IsValid m
    → ltb m.nr_ids (max_id m idflags) ≡ false
    → find_clear m.words (min_id m idflags) (max_id m idflags - min_id m idflags) ≡ done r
    → FirstClear m.words (min_id m idflags) (max_id m idflags - min_id m idflags) r
    → (r : Option ℕ) × (m' : IdMap) × (find_free_id m idflags ≡ done (r, m')) × Finds m idflags r m'
answer m idflags none v fits e f =
    (none, m, unfold find_free_id in rw (fits, e) refl, (refl, inr (λ j p q. f j p (omega arith))))
answer m idflags (some k) v fits e f =
    let (m', t, g) = take_found m idflags k v (ground arith) f in
    (some k, m', unfold find_free_id in rw (fits, e, t) refl, g)

-- On a well-formed map find_free_id never reads or writes outside the word array, and takes the
-- lowest free id of the range, or reports that there is none.
pub find_free_id-Finds :
    (m : IdMap) (idflags : ℕ)
    → IsValid m
    → (r : Option ℕ) × (m' : IdMap) × (find_free_id m idflags ≡ done (r, m')) × Finds m idflags r m'
find_free_id-Finds m idflags v = elim (Bool-cases (ltb m.nr_ids (max_id m idflags))) [
  | inl over ↦ (none, m, unfold find_free_id in rw over refl, (refl, inl (ltb→lt _ _ over)))
  | inr fits ↦
      let (r, e, f) =
        find_clear_within m.words m.max_array_idx m.nr_ids (min_id m idflags) (max_id m idflags)
          v.shape (ground arith) in
      answer m idflags r v fits e f
]
