-- ===== src/Buddy/Unlink.antt =====
-- page/page-buddy.c: what taking a block off its queue by list_del leaves.
use mathlib.Core.Bool.{false≢true}
use mathlib.Core.Path.{subst}
use yatos.Prelude.{
  ℕ, zero, suc, ◌+◌, ◌-◌, ◌*◌, ◌^◌, ◌<◌, ◌≡◌, refl, sym, ◌∙◌, ap, arith, ◌==◌, ==_iff, false,
  Bool-cases, inl, inr, List, [], ◌∷◌, length,
}
use yatos.Buddy.{Frame, Buddy, max_order, update, remove, unlink}
use yatos.Buddy.Cover.{
  in_block, in_block_self, cover_queue, cover_below, cover, Listed, cover_queue-le, cover-update,
}
use yatos.Buddy.Blocks.{covering_lower}

-- A block that the queue does not cover is not on it.
remove_absent : (j k : ℕ) (xs : List ℕ) → cover_queue k xs j ≡ 0 → remove j xs ≡ xs
remove_absent j k [] h = refl
remove_absent j k (x ∷ xs) h =
    let apart : (x == j) ≡ false = ground (arith, in_block_self j k) in
    rw apart (ap (λ r. x ∷ r) (remove_absent j k xs (omega arith)))

Listed-remove :
    (frames : ℕ → Frame) (nr k j : ℕ) (xs : List ℕ)
    → Listed frames nr k xs
    → Listed frames nr k (remove j xs)
Listed-remove frames nr k j [] l = tt
Listed-remove frames nr k j (x ∷ xs) l = elim (Bool-cases (x == j)) [
  | inl e ↦ rw e (Listed-remove frames nr k j xs l.3)
  | inr e ↦ rw e (l.0, l.1, l.2, Listed-remove frames nr k j xs l.3)
]

other_start :
    (x c r k : ℕ) → x ≡ c * 2 ^ k → (x == r * 2 ^ k) ≡ false → in_block x k (r * 2 ^ k) ≡ 0
other_start x c r k a e = elim (Bool-cases (in_block x k (r * 2 ^ k) == 1)) [
  | inl covers ↦
      let covers' = subst (λ y. in_block y k (r * 2 ^ k) ≡ 1) a (ground arith) in
      let same = a ∙ covering_lower c k r k (omega arith) covers' in
      absurd (false≢true (sym e ∙ (==_iff x (r * 2 ^ k)).1 same))
  | inr misses ↦ ground arith
]

-- A block that starts where the queue covers a page once leaves it: the queue is one shorter, and its
-- other blocks stay.
remove_present :
    (frames : ℕ → Frame) (nr k r : ℕ) (xs : List ℕ)
    → Listed frames nr k xs
    → cover_queue k xs (r * 2 ^ k) ≡ 1
    → (length (remove (r * 2 ^ k) xs) + 1 ≡ length xs)
      × ((p : ℕ)
          → cover_queue k (remove (r * 2 ^ k) xs) p + in_block (r * 2 ^ k) k p ≡ cover_queue k xs p)
remove_present frames nr k r [] l h = absurd (omega arith)
remove_present frames nr k r (x ∷ xs) l h = elim (Bool-cases (x == r * 2 ^ k)) [
  | inl e ↦
      let same = (==_iff x (r * 2 ^ k)).0 e in
      let here : in_block x k (r * 2 ^ k) ≡ 1 =
        ap (λ y. in_block y k (r * 2 ^ k)) same ∙ in_block_self (r * 2 ^ k) k in
      let rest = remove_absent (r * 2 ^ k) k xs (omega arith) in
      rw (e, rest) (omega arith, λ p. omega (arith, ap (λ y. in_block y k p) same))
  | inr e ↦
      let (c, a) = l.2 in
      let elsewhere : in_block x k (r * 2 ^ k) ≡ 0 = other_start x c r k a e in
      let (len, cov) = remove_present frames nr k r xs l.3 (omega arith) in
      rw e (omega arith, λ p. omega (arith, cov p))
]

cover_below-eq :
    (n : ℕ) (l m : ℕ → List ℕ) (p : ℕ)
    → ((o : ℕ) → o < n → l o ≡ m o)
    → cover_below n l p ≡ cover_below n m p
unfolding cover_below
cover_below-eq zero l m p h = refl
cover_below-eq (suc n) l m p h = omega (
  arith,
  ap (λ xs. cover_queue n xs p) (h n (omega arith)),
  cover_below-eq n l m p (λ o lt. h o (omega arith)),
)

-- list_del of the block of order k at r * 2^k, and `--free_nr[k]`.
abbrev pub unlinked : Buddy → ℕ → ℕ → Buddy
unlinked b r k = record (unlink b (r * 2 ^ k)) { free_nr = update b.free_nr k (b.free_nr k - 1) }

module _ (b : Buddy) (r k : ℕ) (small : k < max_order)
    (counts : (o : ℕ) → o < max_order → b.free_nr o ≡ length (b.page_list o))
    (listed : (o : ℕ) → o < max_order → Listed b.frames b.nr_pages o (b.page_list o))
    (once : cover b (r * 2 ^ k) ≡ 1) (present : cover_queue k (b.page_list k) (r * 2 ^ k) ≡ 1) where
  elsewhere_absent :
      (o : ℕ) → o < max_order → (k == o) ≡ false → cover_queue o (b.page_list o) (r * 2 ^ k) ≡ 0
  elsewhere_absent o lt apart =
      let emptied = cover-update max_order k b.page_list [] (r * 2 ^ k) small in
      let rest = cover_queue-le max_order o (update b.page_list k []) (r * 2 ^ k) lt in
      let untouched : update b.page_list k [] o ≡ b.page_list o = rw apart refl in
      omega (arith, emptied, rest, ap (λ xs. cover_queue o xs (r * 2 ^ k)) untouched, present, once)

  removed_lists :
      (o : ℕ)
      → o < max_order
      → remove (r * 2 ^ k) (b.page_list o)
        ≡ update b.page_list k (remove (r * 2 ^ k) (b.page_list k)) o
  removed_lists o lt = elim (Bool-cases (k == o)) [
    | inl e ↦ let same = (==_iff k o).0 e in rw (← same, (==_iff k k).1 refl) refl
    | inr e ↦ rw e (remove_absent (r * 2 ^ k) o (b.page_list o) (elsewhere_absent o lt e))
  ]

  -- The block is no longer covered, and every page outside it is covered as before.
  pub cover-unlinked : (p : ℕ) → cover (unlinked b r k) p + in_block (r * 2 ^ k) k p ≡ cover b p
  cover-unlinked p = omega (
    arith,
    cover_below-eq max_order (unlinked b r k).page_list
        (update b.page_list k (remove (r * 2 ^ k) (b.page_list k))) p removed_lists,
    cover-update max_order k b.page_list (remove (r * 2 ^ k) (b.page_list k)) p small,
    (remove_present b.frames b.nr_pages k r (b.page_list k) (listed k small) present).1 p,
  )

  pub counts-unlinked :
      (o : ℕ) → o < max_order → (unlinked b r k).free_nr o ≡ length ((unlinked b r k).page_list o)
  counts-unlinked o lt = elim (Bool-cases (k == o)) [
    | inl e ↦
        let same = (==_iff k o).0 e in
        rw (← same, (==_iff k k).1 refl)
          (omega (
            arith,
            counts k small,
            (remove_present b.frames b.nr_pages k r (b.page_list k) (listed k small) present).0,
          ))
    | inr e ↦ rw e (
        counts o lt
        ∙ ap length (sym (remove_absent (r * 2 ^ k) o (b.page_list o) (elsewhere_absent o lt e))))
  ]

  pub Listed-unlinked :
      (o : ℕ) → o < max_order → Listed b.frames b.nr_pages o ((unlinked b r k).page_list o)
  Listed-unlinked o lt =
      Listed-remove b.frames b.nr_pages o (r * 2 ^ k) (b.page_list o) (listed o lt)
