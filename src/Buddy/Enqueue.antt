-- ===== src/Buddy/Enqueue.antt =====
-- page/page-buddy.c: page_buddy_enqueue gives a block back and merges it with its free buddies.
use native.Mathlib.Nat.{one-le-pow}
use yatos.Prelude.{
  ℕ, zero, suc, ◌+◌, ◌-◌, ◌*◌, ◌/◌, ◌^◌, ◌<◌, ◌≡◌, refl, sym, ◌∙◌, arith, ◌==◌, ==_iff, true, false,
  ltb, leb, lt→ltb, Bool-cases, inl, inr, List, [], ◌∷◌, Exec, done,
}
use yatos.Buddy.{Buddy, not_freed, max_order, set_order, merge}
use yatos.Buddy.Cover.{in_block, in_block_self, cover, Listed-update, cover_queue-le}
use yatos.Buddy.Split.{not_freed-set_order, pfn-set_order}
use yatos.Buddy.Siblings.{flip, bit_xor-two-pow, parent_index}
use yatos.Buddy.Blocks.{in_block-siblings, parent_inside}
use yatos.Buddy.Tiles.{Tiles, AreOwned, buddy_on_queue}
use yatos.Buddy.Unlink.{unlinked, cover-unlinked, counts-unlinked, Listed-unlinked}

AreOwned-set_order :
    (b : Buddy) (i k : ℕ) (held : List (ℕ × ℕ))
    → AreOwned b.frames held
    → AreOwned (set_order b i k).frames held
AreOwned-set_order b i k [] h = tt
AreOwned-set_order b i k ((j, o) ∷ held) h =
    (not_freed-set_order b i k j ∙ h.0, h.1, AreOwned-set_order b i k held h.2)

-- Writing the order of the block in hand into its first frame.
Tiles-set_order :
    (b : Buddy) (i k o : ℕ) (held : List (ℕ × ℕ))
    → Tiles b i k held
    → Tiles (set_order b i o) i k held
Tiles-set_order b i k o held t = record {
  counts = t.counts;
  listed = λ n lt.
      Listed-update b.frames b.nr_pages n i _ _
        (omega (arith, t.single i, in_block_self i k, cover_queue-le max_order n b.page_list i lt))
        (t.listed n lt);
  single = t.single;
  whole = t.whole;
  freed = λ p e. not_freed-set_order b i o p ∙ t.freed p e;
  pfns = λ p. pfn-set_order b i o p ∙ t.pfns p;
  inside = t.inside;
  aligned = t.aligned;
  owned = AreOwned-set_order b i o held t.owned;
}

-- The parent block is in hand once the buddy has left its queue.
module _ (b : Buddy) (k q : ℕ) (held : List (ℕ × ℕ)) (t : Tiles b (q * 2 ^ k) k held)
    (within : flip q * 2 ^ k < b.nr_pages) (same_order : (b.frames (flip q * 2 ^ k)).order ≡ k)
    (is_free : not_freed (b.frames (flip q * 2 ^ k)) ≡ false) where
  merged_total :
      (p : ℕ)
      → cover (unlinked b (flip q) k) p + in_block ((q / 2) * 2 ^ suc k) (suc k) p
        ≡ cover b p + in_block (q * 2 ^ k) k p
  merged_total p =
      let (present, fits, small) = buddy_on_queue b k q held t within same_order is_free in
      let most = cover_queue-le max_order k b.page_list (flip q * 2 ^ k) small in
      let once : cover b (flip q * 2 ^ k) ≡ 1 =
        omega (arith, t.single (flip q * 2 ^ k), most, present) in
      omega (
        arith,
        in_block-siblings q k p,
        cover-unlinked b (flip q) k small t.counts t.listed once present p,
      )

  merged-Tiles : Tiles (unlinked b (flip q) k) ((q / 2) * 2 ^ suc k) (suc k) held
  merged-Tiles =
      let (present, fits, small) = buddy_on_queue b k q held t within same_order is_free in
      let most = cover_queue-le max_order k b.page_list (flip q * 2 ^ k) small in
      let once : cover b (flip q * 2 ^ k) ≡ 1 =
        omega (arith, t.single (flip q * 2 ^ k), most, present) in
      record {
        counts = counts-unlinked b (flip q) k small t.counts t.listed once present;
        listed = Listed-unlinked b (flip q) k small t.counts t.listed once present;
        single = λ p. omega (arith, t.single p, merged_total p);
        whole = λ p lt. omega (arith, t.whole p lt, merged_total p);
        freed = λ p e. t.freed p (sym (merged_total p) ∙ e);
        pfns = t.pfns;
        inside = parent_inside q k b.nr_pages t.inside fits;
        aligned = (q / 2, refl);
        owned = t.owned;
      }

-- What the merging loop leaves: a block in hand, marked with its order, and the same pages covered.
pub record Merges (b : Buddy) (i k : ℕ) (held : List (ℕ × ℕ)) (r : ℕ) (b' : Buddy) : Type 0 where
  pub order : ℕ
  pub tiles : Tiles b' r order held
  pub marked : (b'.frames r).order ≡ order
  pub small : order < max_order
  pub total : (p : ℕ) → cover b' p + in_block r order p ≡ cover b p + in_block i k p
  pub same_pages : b'.nr_pages ≡ b.nr_pages
  pub same_start : b'.start_pfn ≡ b.start_pfn

abbrev pub Merged : Buddy → ℕ → ℕ → List (ℕ × ℕ) → Exec (ℕ × Buddy) → Type 0
Merged b i k held x = (r : ℕ) × (b' : Buddy) × (x ≡ done (r, b')) × Merges b i k held r b'

stays :
    (b : Buddy) (i k : ℕ) (held : List (ℕ × ℕ))
    → k < max_order
    → Tiles b i k held
    → Merges b i k held i (set_order b i k)
stays b i k held small t = record {
  order = k;
  tiles = Tiles-set_order b i k k held t;
  marked = ground arith;
  small = small;
  total = λ p. refl;
  same_pages = refl;
  same_start = refl;
}

-- One round of the loop, at an aligned block.
module _ (n : ℕ) (b : Buddy) (q k : ℕ) (inside : ltb (q * 2 ^ k) b.nr_pages ≡ true) where
  merge_top :
      leb (max_order - 1) k ≡ true
      → merge (suc n) b (q * 2 ^ k) k ≡ done (q * 2 ^ k, set_order b (q * 2 ^ k) k)
  unfolding merge
  merge_top top = rw (inside, top) refl

  module _ (below : leb (max_order - 1) k ≡ false) where
    merge_no_buddy :
        leb b.nr_pages (flip q * 2 ^ k) ≡ true
        → merge (suc n) b (q * 2 ^ k) k ≡ done (q * 2 ^ k, set_order b (q * 2 ^ k) k)
    unfolding merge
    merge_no_buddy out = rw (inside, below, bit_xor-two-pow k q, out) refl

    module _ (there : leb b.nr_pages (flip q * 2 ^ k) ≡ false) where
      merge_other_order :
          (k == ((set_order b (q * 2 ^ k) k).frames (flip q * 2 ^ k)).order) ≡ false
          → merge (suc n) b (q * 2 ^ k) k ≡ done (q * 2 ^ k, set_order b (q * 2 ^ k) k)
      unfolding merge
      merge_other_order other = rw (inside, below, bit_xor-two-pow k q, there, other) refl

      module _
          (same : (k == ((set_order b (q * 2 ^ k) k).frames (flip q * 2 ^ k)).order) ≡ true) where
        merge_used :
            not_freed ((set_order b (q * 2 ^ k) k).frames (flip q * 2 ^ k)) ≡ true
            → merge (suc n) b (q * 2 ^ k) k ≡ done (q * 2 ^ k, set_order b (q * 2 ^ k) k)
        unfolding merge
        merge_used used = rw (inside, below, bit_xor-two-pow k q, there, same, used) refl

        merge_joined :
            not_freed ((set_order b (q * 2 ^ k) k).frames (flip q * 2 ^ k)) ≡ false
            → merge (suc n) b (q * 2 ^ k) k
              ≡ merge n
                  (unlinked (set_order b (q * 2 ^ k) k) (flip q) k)
                  ((q / 2) * 2 ^ suc k)
                  (suc k)
        unfolding merge
        merge_joined free =
            let marked =
              (==_iff k ((set_order b (q * 2 ^ k) k).frames (flip q * 2 ^ k)).order).0 same in
            let next : k + 1 ≡ suc k = omega arith in
            rw
              (
                inside,
                below,
                bit_xor-two-pow k q,
                there,
                same,
                free,
                parent_index k q,
                ← marked,
                next,
              )
              refl

-- The loop ends without a failed assertion, whatever can be merged.
pub merge-Merges :
    (n : ℕ) (b : Buddy) (q k : ℕ) (held : List (ℕ × ℕ))
    → 0 < n
    → k + n ≡ max_order
    → Tiles b (q * 2 ^ k) k held
    → Merged b (q * 2 ^ k) k held (merge n b (q * 2 ^ k) k)
merge-Merges zero b q k held pos sum t = absurd (omega arith)
merge-Merges (suc n) b q k held pos sum t =
    let i = q * 2 ^ k in
    let j = flip q * 2 ^ k in
    let b1 = set_order b i k in
    let t1 = Tiles-set_order b i k k held t in
    let small : k < max_order = omega arith in
    let stay = stays b i k held small t in
    let inside : ltb i b.nr_pages ≡ true = lt→ltb _ _ (omega (arith, t.inside, one-le-pow k 2)) in
    elim (Bool-cases (leb (max_order - 1) k)) [
      | inl top ↦ (i, b1, merge_top n b q k inside top, stay)
      | inr below ↦ elim (Bool-cases (leb b.nr_pages j)) [
        | inl out ↦ (i, b1, merge_no_buddy n b q k inside below out, stay)
        | inr there ↦ elim (Bool-cases (k == (b1.frames j).order)) [
          | inr other ↦ (i, b1, merge_other_order n b q k inside below there other, stay)
          | inl same ↦ elim (Bool-cases (not_freed (b1.frames j))) [
            | inl used ↦ (i, b1, merge_used n b q k inside below there same used, stay)
            | inr free ↦
                let within : j < b1.nr_pages = ground arith in
                let order = sym ((==_iff k (b1.frames j).order).0 same) in
                let parent = merged-Tiles b1 k q held t1 within order free in
                let (r, b', e, m) =
                  merge-Merges n (unlinked b1 (flip q) k) (q / 2) (suc k) held (ground arith)
                    (omega arith) parent in
                (
                  r,
                  b',
                  merge_joined n b q k inside below there same free ∙ e,
                  record {
                    order = m.order;
                    tiles = m.tiles;
                    marked = m.marked;
                    small = m.small;
                    total = λ p. m.total p ∙ merged_total b1 k q held t1 within order free p;
                    same_pages = m.same_pages;
                    same_start = m.same_start;
                  },
                )
          ]
        ]
      ]
    ]
