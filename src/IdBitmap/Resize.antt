-- ===== src/IdBitmap/Resize.antt =====
-- kern/id-bitmap.c: resize_bitmap against the set of ids in use.
use yatos.Prelude.{
  ℕ, zero, suc, ◌+◌, ◌-◌, ◌*◌, ◌/◌, ◌%◌, ◌^◌, ◌≤◌, ◌<◌, ◌≡◌, refl, sym, ◌∙◌, ap, ◌≢◌, ◌⊎◌, inl, inr,
  arith, Bool, true, false, ltb, leb, ◌==◌, ◌||◌, if◌then◌else◌, Bool-cases, List, [], ◌∷◌, ◌++◌,
  length, get_or, take, replicate, Option, none, some, Rc, ok, ebusy, einval, enomem, done,
  get_or-replicate, get_or_past, length-append, length-take, length-replicate,
}
use yatos.Bits.{set_bit, digit}
use yatos.Bits.Laws.{digit-zero, set_bit-lt, double}
use yatos.IdBitmap.Map.{
  IdMap, scan_used, index_count, move_words, install, resize_bitmap, update_first,
  reserve_invalid_ids,
}
use yatos.IdBitmap.View.{
  bit_of, used_in, used, AreWords, AreWords-get_or, HasWords, IsValid, shape_of, read_in,
  bit_of-set_bit,
}

-- A word that is not 0 has a digit set.
digit_of_ne_zero : (n w : ℕ) → w < 2 ^ n → w ≢ 0 → (q : ℕ) × (q < n) × (digit w q ≡ true)
digit_of_ne_zero zero w h ne = absurd (omega arith)
digit_of_ne_zero (suc n) w h ne = elim (Bool-cases (w % 2 == 1)) [
  | inl odd ↦ (0, omega arith, odd)
  | inr even ↦
      let (q, lt, e) = digit_of_ne_zero n (w / 2) (omega (arith, double n)) (ground arith) in
      (suc q, omega arith, e)
]

-- What the scan of the n words from i on tells.
abbrev Scanned : List ℕ → ℕ → ℕ → Bool → Type 0
Scanned ws i n true = (j : ℕ) × (64 * i ≤ j) × (j < 64 * (i + n)) × (bit_of ws j ≡ true)
Scanned ws i n false = (j : ℕ) → 64 * i ≤ j → j < 64 * (i + n) → bit_of ws j ≡ false

-- An id with the digit in word i.
id_of_digit :
    (ws : List ℕ) (i q : ℕ)
    → q < 64
    → digit (get_or ws i 0) q ≡ true
    → bit_of ws (64 * i + q) ≡ true
id_of_digit ws i q h e =
    let word : (64 * i + q) / 64 ≡ i = omega arith in
    let position : (64 * i + q) % 64 ≡ q = omega arith in rw (word, position) e

widen :
    (ws : List ℕ) (i n : ℕ) (b : Bool)
    → get_or ws i 0 ≡ 0
    → Scanned ws (i + 1) n b
    → Scanned ws i (suc n) b
widen ws i n true z (j, lo, hi, e) = (j, omega arith, omega arith, e)
widen ws i n false z all = λ j lo hi. elim (Bool-cases (j / 64 == i)) [
  | inl here ↦ let word : j / 64 ≡ i = ground arith in rw (word, z) (digit-zero (j % 64))
  | inr there ↦ all j (ground arith) (omega arith)
]

scan_used_lem :
    (ws : List ℕ) (i n : ℕ)
    → AreWords ws
    → i + n ≤ length ws
    → (b : Bool) × (scan_used (some ws) i n ≡ done b) × Scanned ws i n b
unfolding scan_used
scan_used_lem ws i zero words h = (false, refl, λ j lo hi. absurd (omega arith))
scan_used_lem ws i (suc n) words h =
    let here = read_in ws i (omega arith) in
    elim (Bool-cases (get_or ws i 0 == 0)) [
      | inl empty ↦
          let (b, e, s) = scan_used_lem ws (i + 1) n words (omega arith) in
          (b, rw (here, empty) e, widen ws i n b (ground arith) s)
      | inr full ↦
          let (q, lt, e) =
            digit_of_ne_zero 64 (get_or ws i 0) (AreWords-get_or ws i words) (ground arith) in
          (
            true,
            rw (here, full) refl,
            (64 * i + q, omega arith, omega arith, id_of_digit ws i q lt e),
          )
    ]

-- The new array before id 0 is reserved: the first n old words, then zeros.
get_or-moved :
    (ws : List ℕ) (n k i : ℕ)
    → n ≤ length ws
    → get_or (take n ws ++ replicate k 0) i 0 ≡ (if ltb i n then get_or ws i 0 else 0)
get_or-moved ws zero k i h = ground (arith, get_or-replicate {A = ℕ} k 0 i)
get_or-moved [] (suc n) k i h = absurd (omega arith)
get_or-moved (w ∷ ws) (suc n) k zero h = ground arith
get_or-moved (w ∷ ws) (suc n) k (suc i) h = ground (arith, get_or-moved ws n k i (omega arith))

bit_of-moved :
    (ws : List ℕ) (n k j : ℕ)
    → n ≤ length ws
    → bit_of (take n ws ++ replicate k 0) j ≡ (if ltb j (64 * n) then bit_of ws j else false)
bit_of-moved ws n k j h = elim (Bool-cases (ltb (j / 64) n)) [
  | inl p ↦
      let q : ltb j (64 * n) ≡ true = ground arith in rw (get_or-moved ws n k (j / 64) h, p, q) refl
  | inr p ↦
      let q : ltb j (64 * n) ≡ false = ground arith in
      rw (get_or-moved ws n k (j / 64) h, p, q) (digit-zero (j % 64))
]

AreWords-replicate : (k : ℕ) → AreWords (replicate k 0)
AreWords-replicate zero = tt
AreWords-replicate (suc k) = (omega arith, AreWords-replicate k)

AreWords-moved : (ws : List ℕ) (n k : ℕ) → AreWords ws → AreWords (take n ws ++ replicate k 0)
AreWords-moved ws zero k h = AreWords-replicate k
AreWords-moved [] (suc n) k h = AreWords-replicate k
AreWords-moved (w ∷ ws) (suc n) k h = (h.0, AreWords-moved ws n k h.1)

-- Reserving id 0 puts it in use and no other.
bit_of-reserved :
    (ws : List ℕ) (j : ℕ)
    → 0 < length ws
    → bit_of (update_first (λ w. set_bit w 0) ws) j ≡ (if 0 == j then true else bit_of ws j)
bit_of-reserved [] j h = absurd (omega arith)
bit_of-reserved (w ∷ ws) j h = bit_of-set_bit (w ∷ ws) 0 j (omega arith)

AreWords-reserved : (ws : List ℕ) → AreWords ws → AreWords (update_first (λ w. set_bit w 0) ws)
AreWords-reserved [] h = tt
AreWords-reserved (w ∷ ws) h = (set_bit-lt w 0 (omega arith) h.0, h.1)

length-reserved : (ws : List ℕ) → length (update_first (λ w. set_bit w 0) ws) ≡ length ws
length-reserved [] = refl
length-reserved (w ∷ ws) = refl

-- The map that install leaves is well formed, and has the bits of the new array and id 0.
install_lem :
    (m : IdMap) (n : ℕ) (ws : List ℕ)
    → 0 < n
    → n + 63 < 2 ^ 64
    → length ws ≡ index_count n
    → AreWords ws
    → IsValid (install m n ws)
      × ((j : ℕ) → used (install m n ws) j ≡ (if 0 == j then true else bit_of ws j))
unfolding install
install_lem m n ws pos small len words =
    let some_word : 0 < length ws = omega arith in
    (
      record {
        shape = (
          omega (arith, length-reserved ws),
          omega arith,
          omega arith,
          omega arith,
          AreWords-reserved ws words,
          bit_of-reserved ws 0 some_word,
        );
        range = omega arith;
      },
      λ j. bit_of-reserved ws j some_word,
    )

pub bit_of_past : (ws : List ℕ) (j : ℕ) → 64 * length ws ≤ j → bit_of ws j ≡ false
bit_of_past ws j h = rw (get_or_past ws (j / 64) 0 (omega arith)) (digit-zero (j % 64))

-- Moving the whole old array into a larger one keeps the bits.
move_words-grown :
    (ws : Option (List ℕ)) (size ids k : ℕ)
    → HasWords ws size ids
    → size ≤ k
    → (length (move_words k size ws) ≡ k)
      × AreWords (move_words k size ws)
      × ((j : ℕ) → bit_of (move_words k size ws) j ≡ used_in ws j)
move_words-grown none size ids k h le = (
  length-replicate k 0,
  AreWords-replicate k,
  λ j. ground (arith, get_or-replicate {A = ℕ} k 0 (j / 64), digit-zero (j % 64)),
)
move_words-grown (some ws) size ids k h le = (
  omega (
    arith,
    length-append (take size ws) (replicate (k - size) 0),
    length-take size ws,
    length-replicate {A = ℕ} (k - size) 0,
    h.0,
  ),
  AreWords-moved ws size (k - size) h.4,
  λ j.
      ground (arith, bit_of-moved ws size (k - size) j (omega (arith, h.0)), bit_of_past ws j, h.0),
)

-- So does moving the first k words, where no id of the others is in use.
move_words-shrunk :
    (ws : List ℕ) (k : ℕ)
    → k < length ws
    → AreWords ws
    → Scanned ws k (length ws - k) false
    → (length (move_words k k (some ws)) ≡ k)
      × AreWords (move_words k k (some ws))
      × ((j : ℕ) → bit_of (move_words k k (some ws)) j ≡ bit_of ws j)
move_words-shrunk ws k lt words clear = (
  omega (
    arith,
    length-append (take k ws) (replicate (k - k) 0),
    length-take k ws,
    length-replicate {A = ℕ} (k - k) 0,
  ),
  AreWords-moved ws k (k - k) words,
  λ j. ground (arith, bit_of-moved ws k (k - k) j (omega arith), bit_of_past ws j, clear j),
)

module _ (kmalloc : ℕ → Bool) where
  -- The outcomes of resize_bitmap, each with what it says of the map and what it leaves.
  abbrev pub Resizes : IdMap → ℕ → Rc → IdMap → Type 0
  Resizes m n ok m' =
      (kmalloc (8 * index_count n) ≡ true)
      × (m.reserved_ids < n)
      × IsValid m'
      × (m'.nr_ids ≡ n)
      × (m'.max_array_idx ≡ index_count n)
      × (m'.reserved_ids ≡ m.reserved_ids)
      × (m'.ref_count ≡ m.ref_count)
      × ((j : ℕ) → used m' j ≡ (if 0 == j then true else used m j))
  Resizes m n ebusy m' = (m' ≡ m) × ((j : ℕ) × (64 * index_count n ≤ j) × (used m j ≡ true))
  Resizes m n einval m' = (m' ≡ m) × ((n ≡ 0) ⊎ (n ≤ m.reserved_ids))
  Resizes m n enomem m' = (m' ≡ m) × (kmalloc (8 * index_count n) ≡ false)
  Resizes m n _ m' = ⊥

  abbrev Resized : IdMap → ℕ → Type 0
  Resized m n =
      (rc : Rc) × (m' : IdMap) × (resize_bitmap kmalloc m n ≡ done (rc, m')) × Resizes m n rc m'

  resize_installs :
      (m : IdMap) (n : ℕ) (ws : List ℕ)
      → m.reserved_ids < n
      → n + 63 < 2 ^ 64
      → kmalloc (8 * index_count n) ≡ true
      → length ws ≡ index_count n
      → AreWords ws
      → ((j : ℕ) → (if 0 == j then true else bit_of ws j) ≡ (if 0 == j then true else used m j))
      → resize_bitmap kmalloc m n ≡ done (ok, install m n ws)
      → Resized m n
  resize_installs m n ws pos small granted len words same e =
      let (valid, bits) = install_lem m n ws (omega arith) small len words in
      (
        ok,
        install m n ws,
        e,
        (
          granted,
          pos,
          valid,
          unfold install reserve_invalid_ids in refl,
          unfold install reserve_invalid_ids in refl,
          unfold install reserve_invalid_ids in refl,
          unfold install reserve_invalid_ids in refl,
          λ j. bits j ∙ same j,
        ),
      )

  resize_grows_eq :
      (m : IdMap) (n : ℕ)
      → m.reserved_ids < n
      → kmalloc (8 * index_count n) ≡ true
      → m.max_array_idx < index_count n
      → resize_bitmap kmalloc m n
        ≡ done (ok, install m n (move_words (index_count n) m.max_array_idx m.words))
  unfolding resize_bitmap
  resize_grows_eq m n pos granted bigger = ground arith

  resize_shrinks_eq :
      (m : IdMap) (n : ℕ) (ws : List ℕ) (b : Bool)
      → m.words ≡ some ws
      → m.reserved_ids < n
      → kmalloc (8 * index_count n) ≡ true
      → index_count n < m.max_array_idx
      → scan_used (some ws) (index_count n) (m.max_array_idx - index_count n) ≡ done b
      → resize_bitmap kmalloc m n ≡ (
          if b
          then done (ebusy, m)
          else done (ok, install m n (move_words (index_count n) (index_count n) (some ws))))
  unfolding resize_bitmap
  resize_shrinks_eq m n ws b e pos granted smaller scan = ground arith

  words_of_size :
      (m : IdMap) → IsValid m → 0 < m.max_array_idx → (ws : List ℕ) × (m.words ≡ some ws)
  words_of_size m v h = ground arith

  resize_grows :
      (m : IdMap) (n : ℕ)
      → IsValid m
      → m.reserved_ids < n
      → n + 63 < 2 ^ 64
      → kmalloc (8 * index_count n) ≡ true
      → m.max_array_idx < index_count n
      → Resized m n
  resize_grows m n v pos small granted bigger =
      let (len, words, bits) =
        move_words-grown m.words m.max_array_idx m.nr_ids (index_count n) v.shape (omega arith) in
      resize_installs m n (move_words (index_count n) m.max_array_idx m.words) pos small granted len
        words (λ j. ap (λ b. if 0 == j then true else b) (bits j))
        (resize_grows_eq m n pos granted bigger)

  resize-Scanned :
      (m : IdMap) (n : ℕ) (v : IsValid m) (ws : List ℕ) (b : Bool)
      → m.words ≡ some ws
      → m.reserved_ids < n
      → n + 63 < 2 ^ 64
      → kmalloc (8 * index_count n) ≡ true
      → index_count n < m.max_array_idx
      → scan_used (some ws) (index_count n) (m.max_array_idx - index_count n) ≡ done b
      → Scanned ws (index_count n) (m.max_array_idx - index_count n) b
      → Resized m n
  resize-Scanned m n v ws true e pos small granted smaller scan (j, lo, hi, bit) = (
    ebusy,
    m,
    resize_shrinks_eq m n ws true e pos granted smaller scan,
    (refl, (j, lo, ap (λ o. used_in o j) e ∙ bit)),
  )
  resize-Scanned m n v ws false e pos small granted smaller scan clear =
      let shape = shape_of m ws v e in
      let (len, words, bits) =
        move_words-shrunk ws (index_count n) (omega (arith, shape.0)) shape.4
          (λ j lo hi. clear j lo (omega (arith, shape.0))) in
      resize_installs m n (move_words (index_count n) (index_count n) (some ws)) pos small granted
        len words
        (λ j. ap (λ b. if 0 == j then true else b) (bits j ∙ sym (ap (λ o. used_in o j) e)))
        (resize_shrinks_eq m n ws false e pos granted smaller scan)

  resize_shrinks :
      (m : IdMap) (n : ℕ)
      → IsValid m
      → m.reserved_ids < n
      → n + 63 < 2 ^ 64
      → kmalloc (8 * index_count n) ≡ true
      → index_count n < m.max_array_idx
      → Resized m n
  resize_shrinks m n v pos small granted smaller =
      let (ws, e) = words_of_size m v (omega arith) in
      let shape = shape_of m ws v e in
      let (b, scan, s) =
        scan_used_lem ws (index_count n) (m.max_array_idx - index_count n) shape.4
          (omega (arith, shape.0)) in
      resize-Scanned m n v ws b e pos small granted smaller scan s

  -- Resizing a well-formed map to another number of words never leaves the array, keeps every id in
  -- use when it succeeds, and changes nothing when it fails: with -EBUSY only if an id of the words to
  -- go is in use, with -EINVAL only for a size within the reserved ids, and with -ENOMEM only if the
  -- heap refuses.
  pub resize_bitmap-Resizes :
      (m : IdMap) (n : ℕ)
      → IsValid m
      → n + 63 < 2 ^ 64
      → index_count n ≢ m.max_array_idx
      → (rc : Rc) × (m' : IdMap) × (resize_bitmap kmalloc m n ≡ done (rc, m')) × Resizes m n rc m'
  unfolding resize_bitmap
  resize_bitmap-Resizes m n v small other = elim (Bool-cases (n == 0 || leb n m.reserved_ids)) [
    | inl bad ↦ (einval, m, rw bad refl, (refl, ground arith))
    | inr good ↦ elim (Bool-cases (kmalloc (8 * index_count n))) [
      | inl granted ↦ elim (Bool-cases (ltb m.max_array_idx (index_count n))) [
        | inl p ↦ resize_grows m n v (ground arith) small granted (ground arith)
        | inr p ↦ resize_shrinks m n v (ground arith) small granted (ground arith)
      ]
      | inr refused ↦ (enomem, m, rw (good, refused) refl, (refl, refused))
    ]
  ]

  -- A size that needs as many words as the map has is granted, but none of the old words is moved: all
  -- ids in use but id 0 are lost.
  pub resize_bitmap_same_words :
      (m : IdMap) (n : ℕ)
      → m.reserved_ids < n
      → n + 63 < 2 ^ 64
      → kmalloc (8 * index_count n) ≡ true
      → index_count n ≡ m.max_array_idx
      → (m' : IdMap) × (resize_bitmap kmalloc m n ≡ done (ok, m'))
        × ((j : ℕ) → used m' j ≡ (0 == j))
  unfolding resize_bitmap
  resize_bitmap_same_words m n pos small granted same =
      let (valid, bits) =
        install_lem m n (replicate (index_count n) 0) (omega arith) small
          (length-replicate (index_count n) 0) (AreWords-replicate (index_count n)) in
      (
        install m n (replicate (index_count n) 0),
        ground arith,
        λ j.
            bits j
            ∙ ground
                (arith, get_or-replicate {A = ℕ} (index_count n) 0 (j / 64), digit-zero (j % 64)),
      )
