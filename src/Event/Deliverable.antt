-- ===== src/Event/Deliverable.antt =====
-- event/event-mask.c: masks as sets of event numbers, and the set that is to be delivered.
use Prim.Native.Nat.{bit_and, bit_xor, differ}
use yatos.Prelude.{
  ℕ, zero, suc, ◌/◌, ◌%◌, ◌<◌, ◌≡◌, refl, sym, ap, arith, Bool, not, ◌&&◌, ◌==◌, if◌then◌else◌,
  List, [], ◌∷◌, length, get_or,
}
use yatos.Bits.{digit}
use yatos.Bits.Steps.{bit_and_halves, bit_xor_halves}
use yatos.IdBitmap.View.{bit_of}
use yatos.Event.Mask.{EventMask, zip_words, ev_mask_xor, ev_mask_and}

-- the events of a mask, and masks of the size that the code declares
abbrev pub has : EventMask → ℕ → Bool
has m id = bit_of m.words id

abbrev pub IsMask : EventMask → Type 0
IsMask m = length m.words ≡ 2

digit-bit_and : (a b q : ℕ) → digit (bit_and a b) q ≡ (digit a q && digit b q)
digit-bit_and a b zero = ground (arith, bit_and_halves a b)
digit-bit_and a b (suc q) =
    let half : bit_and a b / 2 ≡ bit_and (a / 2) (b / 2) = omega (arith, bit_and_halves a b) in
    rw half (digit-bit_and (a / 2) (b / 2) q)

differ_digits : (a b : ℕ) → a < 2 → b < 2 → differ a b ≡ (if a == b then 0 else 1)
differ_digits zero zero p q = refl
differ_digits zero (suc zero) p q = refl
differ_digits zero (suc (suc b)) p q = absurd (omega arith)
differ_digits (suc zero) zero p q = refl
differ_digits (suc zero) (suc zero) p q = refl
differ_digits (suc zero) (suc (suc b)) p q = absurd (omega arith)
differ_digits (suc (suc a)) b p q = absurd (omega arith)

digit-bit_xor :
    (a b q : ℕ) → digit (bit_xor a b) q ≡ (if digit a q then not (digit b q) else digit b q)
digit-bit_xor a b zero =
    ground (arith, bit_xor_halves a b, differ_digits (a % 2) (b % 2) (omega arith) (omega arith))
digit-bit_xor a b (suc q) =
    let half : bit_xor a b / 2 ≡ bit_xor (a / 2) (b / 2) =
      ground
        (arith, bit_xor_halves a b, differ_digits (a % 2) (b % 2) (omega arith) (omega arith)) in
    rw half (digit-bit_xor (a / 2) (b / 2) q)

get_or-zip_words :
    (f : ℕ → ℕ → ℕ) (xs ys : List ℕ) (i : ℕ)
    → length xs ≡ length ys
    → i < length xs
    → get_or (zip_words f xs ys) i 0 ≡ f (get_or xs i 0) (get_or ys i 0)
get_or-zip_words f [] ys i e h = absurd (omega arith)
get_or-zip_words f (x ∷ xs) [] i e h = absurd (omega arith)
get_or-zip_words f (x ∷ xs) (y ∷ ys) zero e h = refl
get_or-zip_words f (x ∷ xs) (y ∷ ys) (suc i) e h =
    get_or-zip_words f xs ys i (omega arith) (omega arith)

length-zip_words :
    (f : ℕ → ℕ → ℕ) (xs ys : List ℕ)
    → length xs ≡ length ys
    → length (zip_words f xs ys) ≡ length xs
length-zip_words f [] ys e = refl
length-zip_words f (x ∷ xs) [] e = absurd (omega arith)
length-zip_words f (x ∷ xs) (y ∷ ys) e = ap suc (length-zip_words f xs ys (omega arith))

-- What dequeue_from_evque_nolock computes with an exclusive or and an and: the events that are pending
-- and not masked.
pub deliverable :
    (events masks : EventMask) (id : ℕ)
    → IsMask events
    → IsMask masks
    → id < 128
    → has (ev_mask_and events (ev_mask_xor events masks)) id ≡ (has events id && not (has masks id))
unfolding ev_mask_and ev_mask_xor
deliverable events masks id he hm h =
    let es = events.words in
    let ms = masks.words in
    let i : id / 64 < length es = omega arith in
    let same : length es ≡ length ms = omega arith in
    let long : length es ≡ length (zip_words bit_xor es ms) =
      sym (length-zip_words bit_xor es ms same) in
    rw
      (
        get_or-zip_words bit_and es (zip_words bit_xor es ms) (id / 64) long i,
        get_or-zip_words bit_xor es ms (id / 64) same i,
        digit-bit_and (get_or es (id / 64) 0)
            (bit_xor (get_or es (id / 64) 0) (get_or ms (id / 64) 0)) (id % 64),
        digit-bit_xor (get_or es (id / 64) 0) (get_or ms (id / 64) 0) (id % 64),
      )
      (ground arith)

-- The mask of deliverable events has the size of a mask.
pub ev_mask_and-IsMask :
    (a b : EventMask) → IsMask a → IsMask b → IsMask (ev_mask_and a (ev_mask_xor a b))
unfolding ev_mask_and ev_mask_xor
ev_mask_and-IsMask a b h k =
    let x = length-zip_words bit_xor a.words b.words (omega arith) in
    omega
      (arith, x, length-zip_words bit_and a.words (zip_words bit_xor a.words b.words) (omega arith))
