-- ===== src/Buddy/Cover.antt =====
-- page/page-buddy.c: which pages the free blocks cover, and the invariant of a pool from which a block
-- has been taken out and is held by the running operation.
use native.Mathlib.Nat.{pow-suc, one-le-pow}
use yatos.Prelude.{
  ℕ, zero, suc, ◌+◌, ◌*◌, ◌^◌, ◌≤◌, ◌<◌, ◌≡◌, refl, ap, inl, inr, arith, true, false, ◌&&◌, ltb,
  leb, ◌==◌, if◌then◌else◌, Bool-cases, List, [], ◌∷◌, ◌++◌, length,
}
use yatos.Buddy.{Frame, Buddy, not_freed, max_order, update}

-- 1 if page p lies in the block of order k at i, else 0
abbrev pub in_block : ℕ → ℕ → ℕ → ℕ
in_block i k p = if leb i p && ltb p (i + 2 ^ k) then 1 else 0

-- A block is the sum of its halves, and has its first page.
pub in_block-halves : (i k p : ℕ) → in_block i (suc k) p ≡ in_block i k p + in_block (i + 2 ^ k) k p
in_block-halves i k p =
    let double : 2 ^ suc k ≡ 2 * 2 ^ k = omega (arith, pow-suc 2 k) in
    ground (arith, one-le-pow k 2)

pub in_block_self : (i k : ℕ) → in_block i k i ≡ 1
in_block_self i k = ground (arith, one-le-pow k 2)

-- How many blocks of one queue cover page p.
abbrev pub cover_queue : ℕ → List ℕ → ℕ → ℕ
cover_queue k [] p = 0
cover_queue k (i ∷ xs) p = in_block i k p + cover_queue k xs p

-- How many blocks of the queues below order n cover page p.
unfoldable pub cover_below : ℕ → (ℕ → List ℕ) → ℕ → ℕ
cover_below zero lists p = 0
cover_below (suc n) lists p = cover_queue n (lists n) p + cover_below n lists p

-- How many free blocks of the pool cover page p.
abbrev pub cover : Buddy → ℕ → ℕ
cover b p = cover_below max_order b.page_list p

pub cover_queue-append :
    (k : ℕ) (xs : List ℕ) (i p : ℕ)
    → cover_queue k (xs ++ i ∷ []) p ≡ cover_queue k xs p + in_block i k p
cover_queue-append k [] i p = omega arith
cover_queue-append k (x ∷ xs) i p = omega (arith, cover_queue-append k xs i p)

cover_below_other :
    (n k : ℕ) (lists : ℕ → List ℕ) (q : List ℕ) (p : ℕ)
    → n ≤ k
    → cover_below n (update lists k q) p ≡ cover_below n lists p
unfolding cover_below
cover_below_other zero k lists q p h = refl
cover_below_other (suc n) k lists q p h =
    let other : (k == n) ≡ false = ground arith in
    rw other
      (ap (λ c. cover_queue n (lists n) p + c) (cover_below_other n k lists q p (omega arith)))

-- Replacing one queue changes the cover by what the queue covers.
pub cover-update :
    (n k : ℕ) (lists : ℕ → List ℕ) (q : List ℕ) (p : ℕ)
    → k < n
    → cover_below n (update lists k q) p + cover_queue k (lists k) p
      ≡ cover_below n lists p + cover_queue k q p
unfolding cover_below
cover-update zero k lists q p h = absurd (omega arith)
cover-update (suc n) k lists q p h = elim (Bool-cases (k == n)) [
  | inl e ↦
      let same : k ≡ n = ground arith in
      let self : (n == n) ≡ true = ground arith in
      rw (same, self) (omega (arith, cover_below_other n n lists q p (omega arith)))
  | inr e ↦ rw e (omega (arith, cover-update n k lists q p (ground arith)))
]

pub cover_queue-le :
    (n k : ℕ) (lists : ℕ → List ℕ) (p : ℕ)
    → k < n
    → cover_queue k (lists k) p ≤ cover_below n lists p
unfolding cover_below
cover_queue-le zero k lists p h = absurd (omega arith)
cover_queue-le (suc n) k lists p h = elim (Bool-cases (k == n)) [
  | inl e ↦ let same : k ≡ n = ground arith in rw same (omega arith)
  | inr e ↦ omega (arith, cover_queue-le n k lists p (ground arith))
]

-- What holds of each frame on the queue of order k.
abbrev pub Listed : (ℕ → Frame) → ℕ → ℕ → List ℕ → Type 0
Listed frames nr k [] = Unit {0}
Listed frames nr k (i ∷ xs) =
    ((frames i).order ≡ k) × (i + 2 ^ k ≤ nr) × ((q : ℕ) × (i ≡ q * 2 ^ k)) × Listed frames nr k xs

-- The pool while the block of order k at i is held: the counts are those of the queues; queued blocks
-- are aligned, inside the array and marked with their order; no page is in two blocks, queued or held;
-- the pages of these blocks are free; frames know their number.
pub record Holds (b : Buddy) (i k : ℕ) : Type 0 where
  pub counts : (o : ℕ) → o < max_order → b.free_nr o ≡ length (b.page_list o)
  pub listed : (o : ℕ) → o < max_order → Listed b.frames b.nr_pages o (b.page_list o)
  pub single : (p : ℕ) → cover b p + in_block i k p ≤ 1
  pub freed : (p : ℕ) → cover b p + in_block i k p ≡ 1 → not_freed (b.frames p) ≡ false
  pub pfns : (p : ℕ) → (b.frames p).pfn ≡ b.start_pfn + p
  pub inside : i + 2 ^ k ≤ b.nr_pages
  pub aligned : (q : ℕ) × (i ≡ q * 2 ^ k)
  pub marked : (b.frames i).order ≡ k

-- The pool between operations.
pub record IsValid (b : Buddy) : Type 0 where
  pub counts : (o : ℕ) → o < max_order → b.free_nr o ≡ length (b.page_list o)
  pub listed : (o : ℕ) → o < max_order → Listed b.frames b.nr_pages o (b.page_list o)
  pub single : (p : ℕ) → cover b p ≤ 1
  pub freed : (p : ℕ) → cover b p ≡ 1 → not_freed (b.frames p) ≡ false
  pub pfns : (p : ℕ) → (b.frames p).pfn ≡ b.start_pfn + p

-- A frame that no block of a queue covers is not on it, so it may change.
pub Listed-update :
    (frames : ℕ → Frame) (nr o i : ℕ) (f : Frame) (xs : List ℕ)
    → cover_queue o xs i ≡ 0
    → Listed frames nr o xs
    → Listed (update frames i f) nr o xs
Listed-update frames nr o i f [] h l = tt
Listed-update frames nr o i f (x ∷ xs) h (m, fits, al, rest) =
    let apart : (i == x) ≡ false = ground (arith, one-le-pow o 2) in
    (rw apart m, fits, al, Listed-update frames nr o i f xs (omega arith) rest)

pub Listed-append :
    (frames : ℕ → Frame) (nr k i : ℕ) (xs : List ℕ)
    → Listed frames nr k xs
    → (frames i).order ≡ k
    → i + 2 ^ k ≤ nr
    → (q : ℕ) × (i ≡ q * 2 ^ k)
    → Listed frames nr k (xs ++ i ∷ [])
Listed-append frames nr k i [] l m fits al = (m, fits, al, tt)
Listed-append frames nr k i (x ∷ xs) l m fits al =
    (l.0, l.1, l.2, Listed-append frames nr k i xs l.3 m fits al)
