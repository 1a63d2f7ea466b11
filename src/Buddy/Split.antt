-- ===== src/Buddy/Split.antt =====
-- page/page-buddy.c: remove_page_from_page_queue splits a block without losing or duplicating a page.
use mathlib.Core.Path.{subst}
use native.Mathlib.Nat.{pow-suc, one-le-pow}
use yatos.Prelude.{
  ℕ, zero, suc, ◌+◌, ◌-◌, ◌*◌, ◌^◌, ◌≤◌, ◌<◌, ◌≡◌, refl, sym, ◌∙◌, ap, arith, true, false, ltb,
  lt→ltb, ◌==◌, ==_iff, Bool-cases, inl, inr, [], ◌∷◌, ◌++◌, length, length-append, done,
}
use yatos.Bits.{test_bit}
use yatos.Buddy.{
  Frame, Buddy, not_freed, max_order, cstate_reserved, update, push, set_order, split,
  remove_page_from_page_queue,
}
use yatos.Buddy.Cover.{
  in_block, in_block-halves, in_block_self, cover_queue, cover_queue-append, cover_queue-le, cover,
  cover-update, Listed, Listed-update, Listed-append, Holds,
}

pub not_freed-set_order :
    (b : Buddy) (i k p : ℕ) → not_freed ((set_order b i k).frames p) ≡ not_freed (b.frames p)
unfolding not_freed
not_freed-set_order b i k p = ground arith

pub pfn-set_order : (b : Buddy) (i k p : ℕ) → ((set_order b i k).frames p).pfn ≡ (b.frames p).pfn
pfn-set_order b i k p = ground arith

-- What one round of the loop leaves: the first half queued, the second half marked.
abbrev halved : Buddy → ℕ → ℕ → Buddy
halved b i k = set_order (push (set_order b i k) k i) (i + 2 ^ k) k

pub cover-push :
    (b : Buddy) (k i p : ℕ) → k < max_order → cover (push b k i) p ≡ cover b p + in_block i k p
cover-push b k i p h = omega (
  arith,
  cover-update max_order k b.page_list (b.page_list k ++ i ∷ []) p h,
  cover_queue-append k (b.page_list k) i p,
)

module _ (b : Buddy) (i k : ℕ) (small : k < max_order) (h : Holds b i (suc k)) where
  cover-halved : (p : ℕ) → cover (halved b i k) p ≡ cover b p + in_block i k p
  cover-halved p = cover-push (set_order b i k) k i p small

  halved_total :
      (p : ℕ) → cover (halved b i k) p + in_block (i + 2 ^ k) k p ≡ cover b p + in_block i (suc k) p
  halved_total p = omega (arith, cover-halved p, in_block-halves i k p)

  head_uncovered : (o : ℕ) → o < max_order → cover_queue o (b.page_list o) i ≡ 0
  head_uncovered o lt =
      omega
        (arith, h.single i, in_block_self i (suc k), cover_queue-le max_order o b.page_list i lt)

  marked_frames : ℕ → Frame
  marked_frames = update b.frames i (record (b.frames i) { order = k })

  two_halves : 2 ^ suc k ≡ 2 * 2 ^ k
  two_halves = omega (arith, pow-suc 2 k)

  head_aligned : (q : ℕ) × (i ≡ q * 2 ^ k)
  head_aligned = let (q, e) = h.aligned in (2 * q, e ∙ ap (λ t. q * t) two_halves ∙ grind arith)

  marked-Listed : (o : ℕ) → o < max_order → Listed marked_frames b.nr_pages o (b.page_list o)
  unfolding marked_frames
  marked-Listed o lt =
      Listed-update b.frames b.nr_pages o i _ _ (head_uncovered o lt) (h.listed o lt)

  pushed-Listed :
      (o : ℕ)
      → o < max_order
      → Listed marked_frames b.nr_pages o ((push (set_order b i k) k i).page_list o)
  unfolding marked_frames
  pushed-Listed o lt = elim (Bool-cases (k == o)) [
    | inl e ↦
        let same : k ≡ o = ground arith in
        let self : (k == k) ≡ true = ground arith in
        rw (← same, self)
          (Listed-append marked_frames b.nr_pages k i (b.page_list k) (marked-Listed k small)
            (ground arith) (omega (arith, h.inside, two_halves)) head_aligned)
    | inr e ↦ rw e (marked-Listed o lt)
  ]

  second_uncovered :
      (o : ℕ)
      → o < max_order
      → cover_queue o ((push (set_order b i k) k i).page_list o) (i + 2 ^ k) ≡ 0
  second_uncovered o lt = omega (
    arith,
    h.single (i + 2 ^ k),
    halved_total (i + 2 ^ k),
    in_block_self (i + 2 ^ k) k,
    cover_queue-le max_order o (push (set_order b i k) k i).page_list (i + 2 ^ k) lt,
  )

  halved_counts :
      (o : ℕ) → o < max_order → (halved b i k).free_nr o ≡ length ((halved b i k).page_list o)
  halved_counts o lt = elim (Bool-cases (k == o)) [
    | inl e ↦
        let same : k ≡ o = ground arith in
        let self : (k == k) ≡ true = ground arith in
        rw (← same, self) (omega (arith, h.counts k small, length-append (b.page_list k) (i ∷ [])))
    | inr e ↦ rw e (h.counts o lt)
  ]

  pub halved-Holds : Holds (halved b i k) (i + 2 ^ k) k
  unfolding marked_frames
  halved-Holds = record {
    counts = halved_counts;
    listed = λ o lt.
        Listed-update marked_frames b.nr_pages o (i + 2 ^ k) _ _ (second_uncovered o lt)
          (pushed-Listed o lt);
    single = λ p. omega (arith, h.single p, halved_total p);
    freed = λ p e.
        not_freed-set_order (push (set_order b i k) k i) (i + 2 ^ k) k p
        ∙ not_freed-set_order b i k p
        ∙ h.freed p (sym (halved_total p) ∙ e);
    pfns = λ p.
        pfn-set_order (push (set_order b i k) k i) (i + 2 ^ k) k p
        ∙ pfn-set_order b i k p
        ∙ h.pfns p;
    inside = omega (arith, h.inside, two_halves);
    aligned = let (q, e) = head_aligned in (q + 1, grind arith);
    marked = ground arith;
  }

-- What splitting a held block of order `from` down to order `to` leaves: a held block of that order, and
-- the same pages, each covered as often as before.
pub record Splits (b : Buddy) (i from to : ℕ) (j : ℕ) (b' : Buddy) : Type 0 where
  pub holds : Holds b' j to
  pub total : (p : ℕ) → cover b' p + in_block j to p ≡ cover b p + in_block i from p
  pub same_start : b'.start_pfn ≡ b.start_pfn
  pub same_pages : b'.nr_pages ≡ b.nr_pages

head_free : (b : Buddy) (i k : ℕ) → Holds b i k → not_freed (b.frames i) ≡ false
head_free b i k h = h.freed i (omega (arith, h.single i, in_block_self i k))

-- One round of the loop, with the rest of it.
split_round :
    (request n : ℕ) (b : Buddy) (i : ℕ)
    → Holds b i (suc (request + n))
    → split request (suc n) b i ≡ split request n (halved b i (request + n)) (i + 2 ^ (request + n))
unfolding split
split_round request n b i h =
    let free : not_freed ((set_order b i (request + n)).frames i) ≡ false =
      not_freed-set_order b i (request + n) i ∙ head_free b i (suc (request + n)) h in
    let within : ltb (i + 2 ^ (request + n)) b.nr_pages ≡ true =
      lt→ltb _ _ (omega (arith, h.inside, pow-suc 2 (request + n), one-le-pow (request + n) 2)) in
    rw (free, within) refl

split_lem :
    (request n : ℕ) (b : Buddy) (i : ℕ)
    → request + n < max_order
    → Holds b i (request + n)
    → (j : ℕ) × (b' : Buddy) × (split request n b i ≡ done (j, b'))
      × Splits b i (request + n) request j b'
split_lem request zero b i small h =
    let none_left : request + 0 ≡ request = omega arith in
    (
      i,
      b,
      unfold split in refl,
      record {
        holds = subst (Holds b i) none_left h;
        total = λ p. ap (λ k. cover b p + in_block i k p) (sym none_left);
        same_start = refl;
        same_pages = refl;
      },
    )
split_lem request (suc n) b i small h =
    let one_more : request + suc n ≡ suc (request + n) = omega arith in
    let h' : Holds b i (suc (request + n)) = subst (Holds b i) one_more h in
    let (j, b', e, s) =
      split_lem request n (halved b i (request + n)) (i + 2 ^ (request + n)) (omega arith)
        (halved-Holds b i (request + n) (omega arith) h') in
    (
      j,
      b',
      split_round request n b i h' ∙ e,
      record {
        holds = s.holds;
        total = λ p.
            s.total p
            ∙ halved_total b i (request + n) (omega arith) h' p
            ∙ ap (λ k. cover b p + in_block i k p) (sym one_more);
        same_start = s.same_start;
        same_pages = s.same_pages;
      },
    )

reserved_of_not_freed : (f : Frame) → not_freed f ≡ false → test_bit f.state cstate_reserved ≡ false
unfolding not_freed
reserved_of_not_freed f h = ground arith

-- Splitting a held block of order `cur` never fails an assertion nor leaves the array, and gives a block
-- of the requested order; the two halves of each split cover the same pages as the block did.
pub remove_page-Splits :
    (b : Buddy) (i request cur : ℕ)
    → request ≤ cur
    → cur < max_order
    → Holds b i cur
    → (j : ℕ) × (b' : Buddy) × (remove_page_from_page_queue b i request cur ≡ done (j, b'))
      × Splits b i cur request j b'
unfolding remove_page_from_page_queue
remove_page-Splits b i request cur le small h =
    let whole : request + (cur - request) ≡ cur = omega arith in
    let (j, b', e, s) =
      split_lem request (cur - request) b i (omega arith) (subst (Holds b i) (sym whole) h) in
    let s' : Splits b i cur request j b' = subst (λ k. Splits b i k request j b') whole s in
    let marked : ((b.frames i).order == cur) ≡ true = (==_iff _ _).1 h.marked in
    let open_page = reserved_of_not_freed (b'.frames j) (head_free b' j request s.holds) in
    (j, b', rw (marked, e, open_page) refl, s')
