-- ===== src/Buddy/Tiles.antt =====
-- page/page-buddy.c: a pool whose pages are tiled by free blocks, blocks in use and the block that is
-- being given back; and where the buddy of that block can be.
use mathlib.Core.Path.{subst}
use native.Mathlib.Decide.{dec_lt, ℕ_discrete}
use yatos.Prelude.{
  ℕ, zero, suc, ◌+◌, ◌*◌, ◌^◌, ◌≤◌, ◌<◌, ◌≡◌, sym, ◌∙◌, ap, ◌≢◌, arith, ◌==◌, true, false,
  Bool-cases, inl, inr, List, [], ◌∷◌, length,
}
use yatos.Buddy.{Frame, Buddy, not_freed, max_order}
use yatos.Buddy.Cover.{
  in_block, in_block_self, cover_queue, cover_below, cover, Listed, cover_queue-le,
}
use yatos.Buddy.Siblings.{flip}
use yatos.Buddy.Blocks.{in_block-siblings, covering_lower, covering_higher}

-- How many of the blocks in use, each an index with its order, cover page p.
abbrev pub cover_held : List (ℕ × ℕ) → ℕ → ℕ
cover_held [] p = 0
cover_held ((i, k) ∷ held) p = in_block i k p + cover_held held p

-- The first frame of each block in use says so, and the blocks are aligned.
abbrev pub AreOwned : (ℕ → Frame) → List (ℕ × ℕ) → Type 0
AreOwned frames [] = Unit {0}
AreOwned frames ((i, k) ∷ held) =
    (not_freed (frames i) ≡ true) × ((q : ℕ) × (i ≡ q * 2 ^ k)) × AreOwned frames held

-- The pool while the block of order k at i is in hand: every page is in exactly one block, free, in hand
-- or in use, and the pages that are free or in hand are marked as free.
pub record Tiles (b : Buddy) (i k : ℕ) (held : List (ℕ × ℕ)) : Type 0 where
  pub counts : (o : ℕ) → o < max_order → b.free_nr o ≡ length (b.page_list o)
  pub listed : (o : ℕ) → o < max_order → Listed b.frames b.nr_pages o (b.page_list o)
  pub single : (p : ℕ) → cover b p + in_block i k p + cover_held held p ≤ 1
  pub whole : (p : ℕ) → p < b.nr_pages → cover b p + in_block i k p + cover_held held p ≡ 1
  pub freed : (p : ℕ) → cover b p + in_block i k p ≡ 1 → not_freed (b.frames p) ≡ false
  pub pfns : (p : ℕ) → (b.frames p).pfn ≡ b.start_pfn + p
  pub inside : i + 2 ^ k ≤ b.nr_pages
  pub aligned : (q : ℕ) × (i ≡ q * 2 ^ k)
  pub owned : AreOwned b.frames held

-- A block of a queue that covers page p, with what is known of it.
pub record OnQueue (frames : ℕ → Frame) (nr o : ℕ) (xs : List ℕ) (p : ℕ) : Type 0 where
  pub index : ℕ
  pub covers : in_block index o p ≡ 1
  pub order : (frames index).order ≡ o
  pub inside : index + 2 ^ o ≤ nr
  pub aligned : (q : ℕ) × (index ≡ q * 2 ^ o)
  pub counted : (p' : ℕ) → in_block index o p' ≤ cover_queue o xs p'

pub find-OnQueue :
    (frames : ℕ → Frame) (nr o : ℕ) (xs : List ℕ) (p : ℕ)
    → Listed frames nr o xs
    → 1 ≤ cover_queue o xs p
    → OnQueue frames nr o xs p
find-OnQueue frames nr o [] p l h = absurd (omega arith)
find-OnQueue frames nr o (x ∷ xs) p l h = elim (Bool-cases (in_block x o p == 1)) [
  | inl e ↦ record {
    index = x;
    covers = ground arith;
    order = l.0;
    inside = l.1;
    aligned = l.2;
    counted = λ p'. omega arith;
  }
  | inr e ↦
      let f = find-OnQueue frames nr o xs p l.3 (ground arith) in
      record {
        index = f.index;
        covers = f.covers;
        order = f.order;
        inside = f.inside;
        aligned = f.aligned;
        counted = λ p'. omega (arith, f.counted p');
      }
]

-- A block in use that covers page p.
record InUse (frames : ℕ → Frame) (held : List (ℕ × ℕ)) (p : ℕ) : Type 0 where
  index : ℕ
  order : ℕ
  covers : in_block index order p ≡ 1
  in_use : not_freed (frames index) ≡ true
  aligned : (q : ℕ) × (index ≡ q * 2 ^ order)
  counted : (p' : ℕ) → in_block index order p' ≤ cover_held held p'

find-InUse :
    (frames : ℕ → Frame) (held : List (ℕ × ℕ)) (p : ℕ)
    → AreOwned frames held
    → 1 ≤ cover_held held p
    → InUse frames held p
find-InUse frames [] p l h = absurd (omega arith)
find-InUse frames ((i, k) ∷ held) p l h = elim (Bool-cases (in_block i k p == 1)) [
  | inl e ↦ record {
    index = i;
    order = k;
    covers = ground arith;
    in_use = l.0;
    aligned = l.1;
    counted = λ p'. omega arith;
  }
  | inr e ↦
      let f = find-InUse frames held p l.2 (ground arith) in
      record {
        index = f.index;
        order = f.order;
        covers = f.covers;
        in_use = f.in_use;
        aligned = f.aligned;
        counted = λ p'. omega (arith, f.counted p');
      }
]

-- The queue that covers a page that some queue covers.
find_queue :
    (n : ℕ) (lists : ℕ → List ℕ) (p : ℕ)
    → 1 ≤ cover_below n lists p
    → (o : ℕ) × (o < n) × (1 ≤ cover_queue o (lists o) p)
unfolding cover_below
find_queue zero lists p h = absurd (omega arith)
find_queue (suc n) lists p h = elim (dec_lt 0 (cover_queue n (lists n) p)) [
  | yes here ↦ (n, omega arith, here)
  | no there ↦ let (o, lt, c) = find_queue n lists p (omega arith) in (o, omega arith, c)
]

module _ (b : Buddy) (k q : ℕ) (held : List (ℕ × ℕ)) (t : Tiles b (q * 2 ^ k) k held)
    (within : flip q * 2 ^ k < b.nr_pages) (same_order : (b.frames (flip q * 2 ^ k)).order ≡ k)
    (is_free : not_freed (b.frames (flip q * 2 ^ k)) ≡ false) where
  in_hand : cover b (q * 2 ^ k) + cover_held held (q * 2 ^ k) ≡ 0
  in_hand = omega (arith, t.single (q * 2 ^ k), in_block_self (q * 2 ^ k) k)

  not_in_hand : in_block (q * 2 ^ k) k (flip q * 2 ^ k) ≡ 0
  not_in_hand =
      ground (arith, in_block-siblings q k (flip q * 2 ^ k), in_block_self (flip q * 2 ^ k) k)

  buddy_not_in_use : cover_held held (flip q * 2 ^ k) ≡ 0
  buddy_not_in_use = elim (dec_lt 0 (cover_held held (flip q * 2 ^ k))) [
    | no none_there ↦ omega arith
    | yes some_there ↦
        let f = find-InUse b.frames held (flip q * 2 ^ k) t.owned some_there in
        absurd (clash f (dec_lt k f.order))
  ]
    where
      clash : (f : InUse b.frames held (flip q * 2 ^ k)) → Dec (k < f.order) → ⊥
      clash f (yes higher) =
          let (c, e) = f.aligned in
          let covers' = subst (λ x. in_block x f.order (flip q * 2 ^ k) ≡ 1) e f.covers in
          let here = covering_higher c f.order q k higher covers' in
          omega (
            arith,
            f.counted (q * 2 ^ k),
            ap (λ x. in_block x f.order (q * 2 ^ k)) e,
            here,
            in_hand,
          )
      clash f (no lower) =
          let (c, e) = f.aligned in
          let covers' = subst (λ x. in_block x f.order (flip q * 2 ^ k) ≡ 1) e f.covers in
          let there = e ∙ covering_lower c f.order (flip q) k (omega arith) covers' in
          cc (f.in_use, ap (λ x. not_freed (b.frames x)) there, is_free)

  buddy_covered : cover b (flip q * 2 ^ k) ≡ 1
  buddy_covered = omega (arith, t.whole (flip q * 2 ^ k) within, not_in_hand, buddy_not_in_use)

  queue_clash :
      (o : ℕ) → o < max_order → o ≢ k → 1 ≤ cover_queue o (b.page_list o) (flip q * 2 ^ k) → ⊥
  queue_clash o lt ne some_there =
      let f =
        find-OnQueue b.frames b.nr_pages o (b.page_list o) (flip q * 2 ^ k) (t.listed o lt)
          some_there in
      clash f (dec_lt k o)
    where
      clash : OnQueue b.frames b.nr_pages o (b.page_list o) (flip q * 2 ^ k) → Dec (k < o) → ⊥
      clash f (yes higher) =
          let (c, e) = f.aligned in
          let covers' = subst (λ x. in_block x o (flip q * 2 ^ k) ≡ 1) e f.covers in
          let here = covering_higher c o q k higher covers' in
          omega (
            arith,
            f.counted (q * 2 ^ k),
            ap (λ x. in_block x o (q * 2 ^ k)) e,
            here,
            in_hand,
            cover_queue-le max_order o b.page_list (q * 2 ^ k) lt,
          )
      clash f (no lower) =
          let (c, e) = f.aligned in
          let covers' = subst (λ x. in_block x o (flip q * 2 ^ k) ≡ 1) e f.covers in
          let there = e ∙ covering_lower c o (flip q) k (omega arith) covers' in
          ne (sym f.order ∙ ap (λ x. (b.frames x).order) there ∙ same_order)

  -- A buddy of the same order that is marked as free is on the queue of that order.
  pub buddy_on_queue :
      (cover_queue k (b.page_list k) (flip q * 2 ^ k) ≡ 1)
      × (flip q * 2 ^ k + 2 ^ k ≤ b.nr_pages)
      × (k < max_order)
  buddy_on_queue =
      let (o, lt, c) =
        find_queue max_order b.page_list (flip q * 2 ^ k) (omega (arith, buddy_covered)) in
      conclude o lt c (ℕ_discrete o k)
    where
      conclude :
          (o : ℕ)
          → o < max_order
          → 1 ≤ cover_queue o (b.page_list o) (flip q * 2 ^ k)
          → Dec (o ≡ k)
          → (cover_queue k (b.page_list k) (flip q * 2 ^ k) ≡ 1)
            × (flip q * 2 ^ k + 2 ^ k ≤ b.nr_pages)
            × (k < max_order)
      conclude o lt c (no ne) = absurd (queue_clash o lt ne c)
      conclude o lt c (yes e) =
          let small = subst (λ x. x < max_order) e lt in
          let some_there = subst (λ x. 1 ≤ cover_queue x (b.page_list x) (flip q * 2 ^ k)) e c in
          let f =
            find-OnQueue b.frames b.nr_pages k (b.page_list k) (flip q * 2 ^ k) (t.listed k small)
              some_there in
          let (d, a) = f.aligned in
          let covers' = subst (λ x. in_block x k (flip q * 2 ^ k) ≡ 1) a f.covers in
          let there = a ∙ covering_lower d k (flip q) k (omega arith) covers' in
          (
            omega (
              arith,
              some_there,
              cover_queue-le max_order k b.page_list (flip q * 2 ^ k) small,
              buddy_covered,
            ),
            subst (λ x. x + 2 ^ k ≤ b.nr_pages) there f.inside,
            small,
          )
