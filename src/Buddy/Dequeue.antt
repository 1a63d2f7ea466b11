-- ===== src/Buddy/Dequeue.antt =====
-- page/page-buddy.c: page_buddy_dequeue hands out a block of free pages and keeps the others.
use mathlib.Core.Path.{subst}
use native.Mathlib.Nat.{one-le-pow}
use yatos.Prelude.{
  ℕ, zero, suc, ◌+◌, ◌-◌, ◌*◌, ◌^◌, ◌≤◌, ◌<◌, ◌≡◌, refl, sym, ◌∙◌, ap, ◌⊎◌, arith, true, false, ltb,
  leb, ◌==◌, ==_iff, ◌&&◌, Bool-cases, inl, inr, List, [], ◌∷◌, length, Option, none, some, Rc, ok,
  enomem, Exec, done,
}
use yatos.Bits.{test_bit, set_bit}
use yatos.Bits.Laws.{test_bit-eq-digit, digit-set_bit}
use yatos.Buddy.{
  Frame, Buddy, not_freed, max_order, cstate_used, pop, set_state, take_page, search_order,
  page_buddy_dequeue,
}
use yatos.Buddy.Cover.{
  in_block, in_block_self, cover_queue, cover_queue-le, cover, cover-update, Listed, Listed-update,
  Holds, IsValid,
}
use yatos.Buddy.Split.{remove_page-Splits}

-- What a successful allocation says of the page number and of the pool that is left: the block is
-- aligned and inside the pool, its pages were free and are no longer covered, every other page is
-- covered as before, and its first frame is marked as used, with the order.
pub record Allocated (b : Buddy) (order pfn : ℕ) (b' : Buddy) : Type 0 where
  pub index : ℕ
  pub number : pfn ≡ b.start_pfn + index
  pub aligned : (q : ℕ) × (index ≡ q * 2 ^ order)
  pub inside : index + 2 ^ order ≤ b.nr_pages
  pub total : (p : ℕ) → cover b' p + in_block index order p ≡ cover b p
  pub in_use : not_freed (b'.frames index) ≡ true
  pub marked : (b'.frames index).order ≡ order
  pub valid : IsValid b'

popped_Listed :
    (frames : ℕ → Frame) (nr k i : ℕ) (xs rest : List ℕ)
    → xs ≡ i ∷ rest
    → Listed frames nr k xs
    → ((frames i).order ≡ k)
      × (i + 2 ^ k ≤ nr)
      × ((q : ℕ) × (i ≡ q * 2 ^ k))
      × Listed frames nr k rest
popped_Listed frames nr k i xs rest e l = subst (Listed frames nr k) e l

module _ (b : Buddy) (k i : ℕ) (rest : List ℕ) (v : IsValid b) (small : k < max_order)
    (front : b.page_list k ≡ i ∷ rest) where
  taken :
      ((b.frames i).order ≡ k)
      × (i + 2 ^ k ≤ b.nr_pages)
      × ((q : ℕ) × (i ≡ q * 2 ^ k))
      × Listed b.frames b.nr_pages k rest
  taken = popped_Listed b.frames b.nr_pages k i (b.page_list k) rest front (v.listed k small)

  popped_total : (p : ℕ) → cover (pop b k rest) p + in_block i k p ≡ cover b p
  popped_total p = omega (
    arith,
    cover-update max_order k b.page_list rest p small,
    ap (λ xs. cover_queue k xs p) front,
  )

  popped_counts :
      (o : ℕ) → o < max_order → (pop b k rest).free_nr o ≡ length ((pop b k rest).page_list o)
  popped_counts o lt = elim (Bool-cases (k == o)) [
    | inl e ↦ rw e (omega (arith, v.counts k small, ap length front))
    | inr e ↦ rw e (v.counts o lt)
  ]

  popped-Listed :
      (o : ℕ) → o < max_order → Listed b.frames b.nr_pages o ((pop b k rest).page_list o)
  popped-Listed o lt = elim (Bool-cases (k == o)) [
    | inl e ↦ let same : k ≡ o = ground arith in rw (e, ← same) taken.3
    | inr e ↦ rw e (v.listed o lt)
  ]

  -- Taking the first block off a queue leaves it held.
  popped-Holds : Holds (pop b k rest) i k
  popped-Holds = record {
    counts = popped_counts;
    listed = popped-Listed;
    single = λ p. omega (arith, popped_total p, v.single p);
    freed = λ p e. v.freed p (sym (popped_total p) ∙ e);
    pfns = v.pfns;
    inside = taken.1;
    aligned = taken.2;
    marked = taken.0;
  }

set_used : (s : ℕ) → test_bit (set_bit s cstate_used) cstate_used ≡ true
set_used s =
    test_bit-eq-digit (set_bit s cstate_used) cstate_used ∙ digit-set_bit s cstate_used cstate_used

abbrev used_page : Buddy → ℕ → Buddy
used_page b j = set_state b j (set_bit (b.frames j).state cstate_used)

used_page-not_freed : (b : Buddy) (j : ℕ) → not_freed ((used_page b j).frames j) ≡ true
unfolding not_freed
used_page-not_freed b j = ground (arith, set_used (b.frames j).state)

-- Marking the held block as used ends the operation: the block is the caller's.
released-IsValid : (b : Buddy) (j k : ℕ) → Holds b j k → IsValid (used_page b j)
released-IsValid b j k h = record {
  counts = h.counts;
  listed = λ o lt.
      Listed-update b.frames b.nr_pages o j _ _
        (omega (arith, h.single j, in_block_self j k, cover_queue-le max_order o b.page_list j lt))
        (h.listed o lt);
  single = λ p. omega (arith, h.single p);
  freed = λ p e. others p e (Bool-cases (j == p));
  pfns = λ p. ground (arith, h.pfns p, h.pfns j);
}
  where
    others :
        (p : ℕ)
        → cover b p ≡ 1
        → ((j == p) ≡ true) ⊎ ((j == p) ≡ false)
        → not_freed ((used_page b j).frames p) ≡ false
    others p e (inl same) = absurd (
        omega (
          arith,
          h.single p,
          in_block_self j k,
          (==_iff j p).0 same,
          ap (λ x. in_block j k x) ((==_iff j p).0 same),
        ))
    others p e (inr apart) = rw apart (h.freed p (omega (arith, h.single p)))

take_page-Allocated :
    (b : Buddy) (order cur i : ℕ) (rest : List ℕ)
    → IsValid b
    → order ≤ cur
    → cur < max_order
    → b.page_list cur ≡ i ∷ rest
    → (pfn : ℕ) × (b' : Buddy) × (take_page b order cur i rest ≡ done ((ok, some pfn), b'))
      × Allocated b order pfn b'
unfolding take_page
take_page-Allocated b order cur i rest v le small front =
    let held = popped-Holds b cur i rest v small front in
    let (j, b', e, s) = remove_page-Splits (pop b cur rest) i order cur le small held in
    let b1 = used_page b' j in
    let number : (b1.frames j).pfn ≡ b.start_pfn + j =
      ground (arith, s.holds.pfns j, s.same_start) in
    let marked : (b1.frames j).order ≡ order = ground (arith, s.holds.marked) in
    let within : j + 2 ^ order ≤ b.nr_pages = omega (arith, s.holds.inside, s.same_pages) in
    let ok_order : ((b1.frames j).order == order) ≡ true = (==_iff _ _).1 marked in
    let ok_range : (leb b.start_pfn (b1.frames j).pfn
          && ltb (b1.frames j).pfn (b.start_pfn + b.nr_pages))
        ≡ true =
      ground (arith, number, within, one-le-pow order 2) in
    (
      (b1.frames j).pfn,
      b1,
      rw (e, ok_order, ok_range) refl,
      record {
        index = j;
        number = number;
        aligned = s.holds.aligned;
        inside = within;
        total = λ p. s.total p ∙ popped_total b cur i rest v small front p;
        in_use = used_page-not_freed b' j;
        marked = marked;
        valid = released-IsValid b' j order s.holds;
      },
    )

-- What page_buddy_dequeue answers, when it looks at the n queues from order cur on.
abbrev pub Answers : Buddy → ℕ → ℕ → ℕ → Exec ((Rc × Option ℕ) × Buddy) → Type 0
Answers b order cur n r =
    ((r ≡ done ((enomem, none), b)) × ((o : ℕ) → cur ≤ o → o < cur + n → b.page_list o ≡ []))
    ⊎ ((pfn : ℕ) × (b' : Buddy) × (r ≡ done ((ok, some pfn), b')) × Allocated b order pfn b')

later :
    (b : Buddy) (order cur n : ℕ) (r : Exec ((Rc × Option ℕ) × Buddy))
    → b.page_list cur ≡ []
    → Answers b order (cur + 1) n r
    → Answers b order cur (suc n) r
later b order cur n r e (inl (f, empty)) = inl (
  f,
  λ o lo hi. elim (Bool-cases (cur == o)) [
    | inl same ↦ rw (← (==_iff cur o).0 same) e
    | inr other ↦ empty o (ground arith) (omega arith)
  ],
)
later b order cur n r e (inr found) = inr found

List-cases : (xs : List ℕ) → (xs ≡ []) ⊎ ((i : ℕ) × (rest : List ℕ) × (xs ≡ i ∷ rest))
List-cases [] = inl refl
List-cases (i ∷ rest) = inr (i, rest, refl)

search_order-Answers :
    (n : ℕ) (b : Buddy) (order cur : ℕ)
    → IsValid b
    → order ≤ cur
    → cur + n ≤ max_order
    → Answers b order cur n (search_order b order cur n)
unfolding search_order
search_order-Answers zero b order cur v le small = inl (refl, λ o lo hi. absurd (omega arith))
search_order-Answers (suc n) b order cur v le small = elim (List-cases (b.page_list cur)) [
  | inl e ↦
      let skip : search_order b order cur (suc n) ≡ search_order b order (cur + 1) n =
        rw (e, search_order) refl in
      subst (Answers b order cur (suc n)) (sym skip) (
        later b order cur n _ e
          (search_order-Answers n b order (cur + 1) v (omega arith) (omega arith)))
  | inr (i, rest, e) ↦
      let (pfn, b', f, a) = take_page-Allocated b order cur i rest v le (omega arith) e in
      inr (pfn, b', rw (e, search_order) f, a)
]

-- For every order below the maximum, page_buddy_dequeue ends without a failed assertion or an access
-- outside the frames. Either all queues from that order on are empty, and it reports -ENOMEM and leaves
-- the pool as it was; or it hands out an aligned block inside the pool, all of whose pages were free and
-- are free no longer, marks it as used, keeps every other free page, and keeps the invariant.
pub page_buddy_dequeue-Answers :
    (b : Buddy) (order : ℕ)
    → IsValid b
    → order < max_order
    → Answers b order order (max_order - order) (page_buddy_dequeue b order)
unfolding page_buddy_dequeue
page_buddy_dequeue-Answers b order v small =
    let allowed : leb max_order order ≡ false = ground arith in
    rw allowed
      (search_order-Answers (max_order - order) b order order v (omega arith) (omega arith))
