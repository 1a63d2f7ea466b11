-- ===== src/Buddy/Tests.antt =====
-- Runs of the buddy allocator, and its theorems at a concrete pool.
use yatos.Prelude.{
  ℕ, ◌+◌, ◌-◌, ◌≡◌, refl, ◌==◌, if◌then◌else◌, Bool-cases, inl, inr, arith, false, List, [], ◌∷◌,
  some, done, ◌>>=◌,
}
use yatos.Bits
use yatos.Buddy.{
  Buddy, not_freed, page_buddy_dequeue, page_buddy_enqueue, take_page, page_buddy_get_free,
  remove_page_from_page_queue,
}
use yatos.Buddy.Cover.{cover, cover_below, in_block, IsValid, Holds}
use yatos.Buddy.Split.{Splits, remove_page-Splits}
use yatos.Buddy.Return.{Occupied, Returned, page_buddy_enqueue-Returned}
use yatos.Buddy.Dequeue.{Answers, page_buddy_dequeue-Answers}

-- Pages 100 to 103, one free block of order 2.
abbrev four_pages : Buddy
four_pages = record {
  frames = λ p. record { state = 0; pfn = 100 + p; order = if p == 0 then 2 else 0 };
  start_pfn = 100;
  nr_pages = 4;
  free_nr = λ k. if 2 == k then 1 else 0;
  page_list = λ k. if 2 == k then 0 ∷ [] else [];
}

cover-four_pages : (p : ℕ) → cover four_pages p ≡ in_block 0 2 p
unfolding cover_below
cover-four_pages p = omega arith

four_pages-IsValid : IsValid four_pages
unfolding not_freed Bits.test_bit
four_pages-IsValid = record {
  counts = λ o lt. elim (Bool-cases (2 == o)) [ inl e ↦ rw e refl | inr e ↦ rw e refl ];
  listed = λ o lt. elim (Bool-cases (2 == o)) [
    | inl e ↦ let two : o ≡ 2 = ground arith in rw two (refl, omega arith, (0, refl), tt)
    | inr e ↦ rw e tt
  ];
  single = λ p. ground (arith, cover-four_pages p);
  freed = λ p e. refl;
  pfns = λ p. refl;
}

abbrev queues : Buddy → ℕ × List ℕ × List ℕ × List ℕ
unfolding page_buddy_get_free
queues b = (page_buddy_get_free b, b.page_list 0, b.page_list 1, b.page_list 2)

-- A page is taken from the end of the block, and the rest stays as blocks of order 1 and 0.
dequeue_one :
    (page_buddy_dequeue four_pages 0 >>= λ r. done (queues r.1)) ≡ done (3, 2 ∷ [], 0 ∷ [], [])
unfolding page_buddy_get_free page_buddy_dequeue not_freed Bits.test_bit Bits.set_bit take_page
dequeue_one = refl

-- Given back, it merges with its buddies to the block of order 2.
dequeue_enqueue :
    (page_buddy_dequeue four_pages 0 >>= λ r.
    page_buddy_enqueue (λ pfn. some (pfn - 100)) r.1 103 >>= λ b. done (queues b))
    ≡ done (4, [], [], 0 ∷ [])
unfolding page_buddy_dequeue page_buddy_enqueue page_buddy_get_free not_freed Bits.test_bit
    Bits.set_bit Bits.clear_bit take_page
dequeue_enqueue = refl

page_buddy_dequeue-Answers_example : Answers four_pages 0 0 11 (page_buddy_dequeue four_pages 0)
page_buddy_dequeue-Answers_example =
    page_buddy_dequeue-Answers four_pages 0 four_pages-IsValid (omega arith)

-- The same pool while its one block is held.
abbrev four_held : Buddy
four_held = record four_pages { free_nr = λ k. 0; page_list = λ k. [] }

cover-four_held : (p : ℕ) → cover four_held p ≡ 0
unfolding cover_below
cover-four_held p = omega arith

four_held-Holds : Holds four_held 0 2
unfolding not_freed Bits.test_bit
four_held-Holds = record {
  counts = λ o lt. refl;
  listed = λ o lt. tt;
  single = λ p. ground (arith, cover-four_held p);
  freed = λ p e. refl;
  pfns = λ p. refl;
  inside = omega arith;
  aligned = (0, refl);
  marked = refl;
}

remove_page-Splits_example :
    (j : ℕ) × (b' : Buddy) × (remove_page_from_page_queue four_held 0 0 2 ≡ done (j, b'))
    × Splits four_held 0 2 0 j b'
remove_page-Splits_example =
    remove_page-Splits four_held 0 0 2 (omega arith) (omega arith) four_held-Holds

-- The same pages with page 103 in use; pages 100 and 101 are a free block, and so is page 102.
abbrev one_used : Buddy
one_used = record {
  frames = λ p. record {
    state = if 3 == p then 1 else 0;
    pfn = 100 + p;
    order = if 0 == p then 1 else 0;
  };
  start_pfn = 100;
  nr_pages = 4;
  free_nr = λ k. if 0 == k then 1 else if 1 == k then 1 else 0;
  page_list = λ k. if 0 == k then 2 ∷ [] else if 1 == k then 0 ∷ [] else [];
}

cover-one_used : (p : ℕ) → cover one_used p ≡ in_block 0 1 p + in_block 2 0 p
unfolding cover_below
cover-one_used p = omega arith

one_used-Occupied : Occupied one_used 3 0 []
unfolding not_freed Bits.test_bit
one_used-Occupied = record {
  counts = λ o lt. elim (Bool-cases (0 == o)) [
    | inl e ↦ rw e refl
    | inr e ↦ elim (Bool-cases (1 == o)) [ inl f ↦ rw (e, f) refl | inr f ↦ rw (e, f) refl ]
  ];
  listed = λ o lt. elim (Bool-cases (0 == o)) [
    | inl e ↦
        let zero_order : o ≡ 0 = ground arith in rw zero_order (refl, omega arith, (2, refl), tt)
    | inr e ↦ elim (Bool-cases (1 == o)) [
      | inl f ↦
          let one_order : o ≡ 1 = ground arith in rw one_order (refl, omega arith, (0, refl), tt)
      | inr f ↦ rw (e, f) tt
    ]
  ];
  single = λ p. ground (arith, cover-one_used p);
  whole = λ p lt. ground (arith, cover-one_used p);
  freed = λ p e. not_last p (ground (arith, cover-one_used p));
  interior = λ p e apart. rw apart refl;
  not_reserved = refl;
  pfns = λ p. refl;
  inside = omega arith;
  aligned = (3, refl);
  marked = refl;
  small = omega arith;
  owned = tt;
}
  where
    not_last : (p : ℕ) → (3 == p) ≡ false → not_freed (one_used.frames p) ≡ false
    not_last p apart = rw apart refl

page_buddy_enqueue-Returned_example :
    (b' : Buddy) × (page_buddy_enqueue (λ pfn. some (pfn - 100)) one_used 103 ≡ done b')
    × Returned one_used 3 0 b'
page_buddy_enqueue-Returned_example =
    page_buddy_enqueue-Returned (λ pfn. some (pfn - 100)) one_used 3 0 [] one_used-Occupied refl
