-- ===== src/IdBitmap/View.antt =====
-- kern/id-bitmap.c: the ids in use as a predicate on numbers, the representation invariant, and what
-- reading and writing one bit of the word array means for them.
use mathlib.Core.Path.{subst}
use yatos.Prelude.{
  ℕ, zero, suc, ◌+◌, ◌*◌, ◌/◌, ◌%◌, ◌^◌, ◌≤◌, ◌<◌, ◌≡◌, refl, ◌≢◌, inl, inr, arith, Bool, true,
  false, ◌==◌, if◌then◌else◌, Bool-cases, List, [], ◌∷◌, length, get_elem?, get_or, set, Option,
  none, some, done, stop, get_or-set_self, get_or-set_ne, length-set,
}
use yatos.Bits.{test_bit, set_bit, clear_bit, digit}
use yatos.Bits.Laws.{test_bit-eq-digit, digit-set_bit, digit-clear_bit, set_bit-lt}
use yatos.IdBitmap.Map.{IdMap, read, use_id}

-- the bit of an id in an array of words
abbrev pub bit_of : List ℕ → ℕ → Bool
bit_of ws id = digit (get_or ws (id / 64) 0) (id % 64)

abbrev pub used_in : Option (List ℕ) → ℕ → Bool
used_in none id = false
used_in (some ws) id = bit_of ws id

-- The abstract view: the ids in use.
abbrev pub used : IdMap → ℕ → Bool
used m id = used_in m.words id

-- Every word fits 64 bits.
abbrev pub AreWords : List ℕ → Type 0
AreWords [] = Unit {0}
AreWords (w ∷ ws) = (w < 2 ^ 64) × AreWords ws

-- The array has as many words as the map says, enough for its ids, and id 0 is in use.
abbrev pub HasWords : Option (List ℕ) → ℕ → ℕ → Type 0
HasWords none size ids = (size ≡ 0) × (ids ≡ 0)
HasWords (some ws) size ids =
    (length ws ≡ size)
    × (0 < size)
    × (ids ≤ 64 * size)
    × (64 * size < ids + 64)
    × AreWords ws
    × (bit_of ws 0 ≡ true)

pub record IsValid (m : IdMap) : Type 0 where
  pub shape : HasWords m.words m.max_array_idx m.nr_ids
  pub range : m.nr_ids < 2 ^ 64

pub get_elem?-eq : (ws : List ℕ) (i : ℕ) → i < length ws → get_elem? ws i ≡ some (get_or ws i 0)
get_elem?-eq [] i h = absurd (omega arith)
get_elem?-eq (w ∷ ws) zero h = refl
get_elem?-eq (w ∷ ws) (suc i) h = get_elem?-eq ws i (omega arith)

pub get_elem?_past : (ws : List ℕ) (i : ℕ) → length ws ≤ i → get_elem? ws i ≡ none
get_elem?_past [] i h = refl
get_elem?_past (w ∷ ws) zero h = absurd (omega arith)
get_elem?_past (w ∷ ws) (suc i) h = get_elem?_past ws i (omega arith)

pub read_in : (ws : List ℕ) (i : ℕ) → i < length ws → read (some ws) i ≡ done (get_or ws i 0)
read_in ws i h = ground (arith, get_elem?-eq ws i)

pub read_past : (ws : List ℕ) (i : ℕ) → length ws ≤ i → read (some ws) i ≡ stop
read_past ws i h = ground (arith, get_elem?_past ws i)

pub AreWords-get_or : (ws : List ℕ) (i : ℕ) → AreWords ws → get_or ws i 0 < 2 ^ 64
AreWords-get_or [] i h = omega arith
AreWords-get_or (w ∷ ws) zero h = h.0
AreWords-get_or (w ∷ ws) (suc i) h = AreWords-get_or ws i h.1

pub AreWords-set : (ws : List ℕ) (i v : ℕ) → v < 2 ^ 64 → AreWords ws → AreWords (set ws i v)
AreWords-set [] i v hv h = tt
AreWords-set (w ∷ ws) zero v hv h = (hv, h.1)
AreWords-set (w ∷ ws) (suc i) v hv h = (h.0, AreWords-set ws i v hv h.1)

-- Two ids share word and position only if they are equal.
same_id : (a b : ℕ) → (a / 64 ≡ b / 64) → (a % 64 ≡ b % 64) → a ≡ b
same_id a b p q = omega arith

-- Writing back the word of `id` with its bit made `v` changes the bit of `id` alone.
bit_of-set :
    (ws : List ℕ) (id w j : ℕ) (v : Bool)
    → id / 64 < length ws
    → ((q : ℕ) → q < 64 → digit w q ≡ (if id % 64 == q then v else digit (get_or ws (id / 64) 0) q))
    → bit_of (set ws (id / 64) w) j ≡ (if id == j then v else bit_of ws j)
bit_of-set ws id w j v h e = elim (Bool-cases (id / 64 == j / 64)) [
  | inl same ↦
      let word : id / 64 ≡ j / 64 = ground arith in
      let position : (id == j) ≡ (id % 64 == j % 64) = ground arith in
      rw (← word, get_or-set_self ws (id / 64) w 0 h, position) (e (j % 64) (omega arith))
  | inr other ↦
      let word : id / 64 ≢ j / 64 = ground arith in
      let apart : (id == j) ≡ false = ground arith in
      rw (get_or-set_ne ws (id / 64) (j / 64) w 0 word, apart) refl
]

-- Setting the bit of an id puts that id in use, and no other.
pub bit_of-set_bit :
    (ws : List ℕ) (id j : ℕ)
    → id / 64 < length ws
    → bit_of (set ws (id / 64) (set_bit (get_or ws (id / 64) 0) (id % 64))) j
      ≡ (if id == j then true else bit_of ws j)
bit_of-set_bit ws id j h =
    bit_of-set ws id (set_bit (get_or ws (id / 64) 0) (id % 64)) j true h
      (λ q hq. digit-set_bit (get_or ws (id / 64) 0) (id % 64) q)

-- Clearing it puts that id out of use, and no other.
pub bit_of-clear_bit :
    (ws : List ℕ) (id j : ℕ)
    → id / 64 < length ws
    → bit_of (set ws (id / 64) (clear_bit (get_or ws (id / 64) 0) (id % 64))) j
      ≡ (if id == j then false else bit_of ws j)
bit_of-clear_bit ws id j h =
    bit_of-set ws id (clear_bit (get_or ws (id / 64) 0) (id % 64)) j false h
      (λ q hq. digit-clear_bit (get_or ws (id / 64) 0) (id % 64) q (omega arith) hq)

-- The test of the code reads the view.
pub test_bit-read :
    (ws : List ℕ) (id : ℕ) → test_bit (get_or ws (id / 64) 0) (id % 64) ≡ bit_of ws id
test_bit-read ws id = test_bit-eq-digit (get_or ws (id / 64) 0) (id % 64)

pub shape_of :
    (m : IdMap) (ws : List ℕ)
    → IsValid m
    → m.words ≡ some ws
    → HasWords (some ws) m.max_array_idx m.nr_ids
shape_of m ws v e = subst (λ o. HasWords o m.max_array_idx m.nr_ids) e v.shape

-- What use_id does to a word array that has the id.
pub use_id_lem :
    (m : IdMap) (ws : List ℕ) (id : ℕ)
    → m.words ≡ some ws
    → id / 64 < length ws
    → use_id m id
      ≡ done
          (record m { words = some (set ws (id / 64) (set_bit (get_or ws (id / 64) 0) (id % 64))) })
unfolding use_id
use_id_lem m ws id e h = ground (arith, read_in ws (id / 64))

-- Writing a word that keeps id 0 in use keeps the invariant.
pub write_word-IsValid :
    (m : IdMap) (ws : List ℕ) (i w : ℕ)
    → IsValid m
    → m.words ≡ some ws
    → w < 2 ^ 64
    → bit_of (set ws i w) 0 ≡ true
    → IsValid (record m { words = some (set ws i w) })
write_word-IsValid m ws i w v e hw h0 =
    let shape = shape_of m ws v e in
    record {
      shape = (
        omega (arith, length-set ws i w, shape.0),
        shape.1,
        shape.2,
        shape.3,
        AreWords-set ws i w hw shape.4,
        h0,
      );
      range = v.range;
    }

pub use_id-IsValid :
    (m : IdMap) (ws : List ℕ) (id : ℕ)
    → IsValid m
    → m.words ≡ some ws
    → id / 64 < length ws
    → IsValid
        (record m { words = some (set ws (id / 64) (set_bit (get_or ws (id / 64) 0) (id % 64))) })
use_id-IsValid m ws id v e h =
    let shape = shape_of m ws v e in
    write_word-IsValid m ws (id / 64) (set_bit (get_or ws (id / 64) 0) (id % 64)) v e
      (set_bit-lt _ _ (omega arith) (AreWords-get_or ws (id / 64) shape.4))
      (ground (arith, bit_of-set_bit ws id 0 h, shape.5))
