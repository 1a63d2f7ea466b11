-- ===== src/Buddy/Return.antt =====
-- page/page-buddy.c: page_buddy_enqueue as a whole.
use mathlib.Core.Path.{subst}
use native.Mathlib.Nat.{one-le-pow, mul-mod_left}
use yatos.Prelude.{
  ℕ, ◌+◌, ◌-◌, ◌*◌, ◌%◌, ◌^◌, ◌≤◌, ◌<◌, ◌≡◌, refl, sym, ◌∙◌, ap, ◌⊎◌, arith, ◌==◌, ==_iff, true,
  false, ltb, leb, lt→ltb, Bool-cases, inl, inr, List, [], ◌∷◌, length, length-append, Option, some,
  done, ◌&&◌,
}
use yatos.Bits.{test_bit, clear_bit}
use yatos.Bits.Laws.{test_bit-eq-digit, digit-clear_bit}
use yatos.Buddy.{
  Frame, Buddy, not_freed, max_order, cstate_used, cstate_reserved, update, set_state, push, merge,
  page_buddy_enqueue,
}
use yatos.Buddy.Cover.{
  in_block, in_block_self, cover, Listed, Listed-update, Listed-append, cover_queue-le, IsValid,
}
use yatos.Buddy.Split.{cover-push}
use yatos.Buddy.Tiles.{Tiles, AreOwned, cover_held}
use yatos.Buddy.Enqueue.{Merged, merge-Merges}

-- The pool while the block of order k at i is in use and about to be given back: each page is in exactly
-- one block, free, this one or another in use; the first frame of this one has its order and is not
-- reserved, and its other frames are marked as free.
pub record Occupied (b : Buddy) (i k : ℕ) (held : List (ℕ × ℕ)) : Type 0 where
  pub counts : (o : ℕ) → o < max_order → b.free_nr o ≡ length (b.page_list o)
  pub listed : (o : ℕ) → o < max_order → Listed b.frames b.nr_pages o (b.page_list o)
  pub single : (p : ℕ) → cover b p + in_block i k p + cover_held held p ≤ 1
  pub whole : (p : ℕ) → p < b.nr_pages → cover b p + in_block i k p + cover_held held p ≡ 1
  pub freed : (p : ℕ) → cover b p ≡ 1 → not_freed (b.frames p) ≡ false
  pub interior : (p : ℕ) → in_block i k p ≡ 1 → (i == p) ≡ false → not_freed (b.frames p) ≡ false
  pub not_reserved : test_bit (b.frames i).state cstate_reserved ≡ false
  pub pfns : (p : ℕ) → (b.frames p).pfn ≡ b.start_pfn + p
  pub inside : i + 2 ^ k ≤ b.nr_pages
  pub aligned : (q : ℕ) × (i ≡ q * 2 ^ k)
  pub marked : (b.frames i).order ≡ k
  pub small : k < max_order
  pub owned : AreOwned b.frames held

abbrev freed_page : Buddy → ℕ → Buddy
freed_page b i = set_state b i (clear_bit (b.frames i).state cstate_used)

AreOwned-update :
    (frames : ℕ → Frame) (i : ℕ) (f : Frame) (held : List (ℕ × ℕ))
    → cover_held held i ≡ 0
    → AreOwned frames held
    → AreOwned (update frames i f) held
AreOwned-update frames i f [] z h = tt
AreOwned-update frames i f ((j, o) ∷ held) z h =
    let apart : (i == j) ≡ false = ground (arith, in_block_self j o) in
    (rw apart h.0, h.1, AreOwned-update frames i f held (omega arith) h.2)

cleared_bits :
    (s : ℕ)
    → test_bit s cstate_reserved ≡ false
    → (test_bit (clear_bit s cstate_used) cstate_used ≡ false)
      × (test_bit (clear_bit s cstate_used) cstate_reserved ≡ false)
cleared_bits s h = (
  test_bit-eq-digit (clear_bit s cstate_used) cstate_used
      ∙ digit-clear_bit s cstate_used cstate_used (omega arith) (omega arith),
  test_bit-eq-digit (clear_bit s cstate_used) cstate_reserved
      ∙ digit-clear_bit s cstate_used cstate_reserved (omega arith) (omega arith)
      ∙ sym (test_bit-eq-digit s cstate_reserved)
      ∙ h,
)

freed_page-not_freed :
    (b : Buddy) (i : ℕ)
    → test_bit (b.frames i).state cstate_reserved ≡ false
    → not_freed ((freed_page b i).frames i) ≡ false
unfolding not_freed
freed_page-not_freed b i h =
    let (used, reserved) = cleared_bits (b.frames i).state h in
    let self : (i == i) ≡ true = (==_iff i i).1 refl in rw (self, used, reserved) refl

-- Clearing the used mark of its first frame puts the block in hand.
freed_page-Tiles :
    (b : Buddy) (i k : ℕ) (held : List (ℕ × ℕ))
    → Occupied b i k held
    → Tiles (freed_page b i) i k held
freed_page-Tiles b i k held v = record {
  counts = v.counts;
  listed = λ o lt.
      Listed-update b.frames b.nr_pages o i _ _
        (omega (arith, v.single i, in_block_self i k, cover_queue-le max_order o b.page_list i lt))
        (v.listed o lt);
  single = v.single;
  whole = v.whole;
  freed = λ p e. open_page p e (Bool-cases (i == p));
  pfns = λ p. ground (arith, v.pfns p, v.pfns i);
  inside = v.inside;
  aligned = v.aligned;
  owned = AreOwned-update b.frames i _ held (omega (arith, v.single i, in_block_self i k)) v.owned;
}
  where
    outside :
        (p : ℕ)
        → cover b p + in_block i k p ≡ 1
        → (i == p) ≡ false
        → (in_block i k p ≡ 1) ⊎ (cover b p ≡ 1)
        → not_freed (b.frames p) ≡ false
    outside p e apart (inl mine) = v.interior p mine apart
    outside p e apart (inr theirs) = v.freed p theirs

    open_page :
        (p : ℕ)
        → cover b p + in_block i k p ≡ 1
        → ((i == p) ≡ true) ⊎ ((i == p) ≡ false)
        → not_freed ((freed_page b i).frames p) ≡ false
    open_page p e (inl same) =
        ap (λ x. not_freed ((freed_page b i).frames x)) (sym ((==_iff i p).0 same))
        ∙ freed_page-not_freed b i v.not_reserved
    open_page p e (inr apart) = rw apart (outside p e apart (omega arith))

-- Queueing the block in hand ends the operation.
push-IsValid :
    (b : Buddy) (i k : ℕ) (held : List (ℕ × ℕ))
    → k < max_order
    → (b.frames i).order ≡ k
    → Tiles b i k held
    → IsValid (push b k i)
push-IsValid b i k held small marked t = record {
  counts = λ o lt. elim (Bool-cases (k == o)) [
    | inl e ↦
        rw (← (==_iff k o).0 e, (==_iff k k).1 refl)
          (omega (arith, t.counts k small, length-append (b.page_list k) (i ∷ [])))
    | inr e ↦ rw e (t.counts o lt)
  ];
  listed = λ o lt. elim (Bool-cases (k == o)) [
    | inl e ↦
        rw (← (==_iff k o).0 e, (==_iff k k).1 refl)
          (Listed-append b.frames b.nr_pages k i (b.page_list k) (t.listed k small) marked t.inside
            t.aligned)
    | inr e ↦ rw e (t.listed o lt)
  ];
  single = λ p. omega (arith, t.single p, cover-push b k i p small);
  freed = λ p e. t.freed p (sym (cover-push b k i p small) ∙ e);
  pfns = t.pfns;
}

-- What giving a block back leaves: the invariant; the pages of the block are free, and every other page
-- is free or in use as before; the pool is the same range.
pub record Returned (b : Buddy) (i k : ℕ) (b' : Buddy) : Type 0 where
  pub valid : IsValid b'
  pub total : (p : ℕ) → cover b' p ≡ cover b p + in_block i k p
  pub same_pages : b'.nr_pages ≡ b.nr_pages
  pub same_start : b'.start_pfn ≡ b.start_pfn

-- The code with its assertions met.
enqueue_eq :
    (lookup : ℕ → Option ℕ) (b : Buddy) (i r : ℕ) (b2 : Buddy)
    → (leb b.start_pfn (b.start_pfn + i) && ltb (b.start_pfn + i) (b.start_pfn + b.nr_pages)) ≡ true
    → lookup (b.start_pfn + i) ≡ some i
    → ltb (b.frames i).order max_order ≡ true
    → (i % 2 ^ (b.frames i).order == 0) ≡ true
    → merge (max_order - (b.frames i).order) (freed_page b i) i (b.frames i).order ≡ done (r, b2)
    → ltb r b.nr_pages ≡ true
    → ltb (b2.frames r).order max_order ≡ true
    → page_buddy_enqueue lookup b (b.start_pfn + i) ≡ done (push b2 (b2.frames r).order r)
unfolding page_buddy_enqueue
enqueue_eq lookup b i r b2 range found known aligned e inside small =
    rw (range, found, known, aligned, e, inside, small) refl

-- Giving back a block in use, found by the number of its first frame: page_buddy_enqueue ends without a
-- failed assertion. However far the block merges with its buddies, afterwards its pages are free, each
-- covered by one block, every other page is as free as before, and the invariant holds.
pub page_buddy_enqueue-Returned :
    (lookup : ℕ → Option ℕ) (b : Buddy) (i k : ℕ) (held : List (ℕ × ℕ))
    → Occupied b i k held
    → lookup (b.start_pfn + i) ≡ some i
    → (b' : Buddy) × (page_buddy_enqueue lookup b (b.start_pfn + i) ≡ done b') × Returned b i k b'
page_buddy_enqueue-Returned lookup b i k held v found =
    let b1 = freed_page b i in
    let t = freed_page-Tiles b i k held v in
    let (r, b2, e, m) = merge_from b1 i k held v.small t in
    let range : (leb b.start_pfn (b.start_pfn + i)
          && ltb (b.start_pfn + i) (b.start_pfn + b.nr_pages))
        ≡ true =
      ground (arith, v.inside, one-le-pow k 2) in
    let known : ltb k max_order ≡ true = lt→ltb _ _ v.small in
    let aligned : (i % 2 ^ k == 0) ≡ true = aligned_test i k v.aligned in
    let inside : ltb r b.nr_pages ≡ true =
      lt→ltb _ _ (omega (arith, m.tiles.inside, one-le-pow m.order 2, m.same_pages)) in
    let small : ltb m.order max_order ≡ true = lt→ltb _ _ m.small in
    (
      push b2 m.order r,
      enqueue_eq lookup b i r b2 range found
            (subst (λ x. ltb x max_order ≡ true) (sym v.marked) known)
            (subst (λ x. (i % 2 ^ x == 0) ≡ true) (sym v.marked) aligned)
            (subst (λ x. merge (max_order - x) b1 i x ≡ done (r, b2)) (sym v.marked) e) inside
            (subst (λ x. ltb x max_order ≡ true) (sym m.marked) small)
          ∙ ap (λ o. done (push b2 o r)) m.marked,
      record {
        valid = push-IsValid b2 r m.order held m.small m.marked m.tiles;
        total = λ p. cover-push b2 m.order r p m.small ∙ m.total p;
        same_pages = m.same_pages;
        same_start = m.same_start;
      },
    )
  where
    aligned_test : (i k : ℕ) → (q : ℕ) × (i ≡ q * 2 ^ k) → (i % 2 ^ k == 0) ≡ true
    aligned_test i k (q, a) = (==_iff _ _).1 (rw a (mul-mod_left q (2 ^ k)))

    merge_from :
        (b : Buddy) (i k : ℕ) (held : List (ℕ × ℕ))
        → k < max_order
        → Tiles b i k held
        → Merged b i k held (merge (max_order - k) b i k)
    merge_from b i k held small t =
        let (q, a) = t.aligned in
        subst (λ x. Merged b x k held (merge (max_order - k) b x k)) (sym a)
          (merge-Merges (max_order - k) b q k held (omega arith) (omega arith)
            (subst (λ x. Tiles b x k held) a t))
