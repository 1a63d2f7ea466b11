-- ===== src/Vm/Ranges.antt =====
-- vm/vm.c: what unmap_range and map_newpage_range leave in the page tables.
use yatos.Prelude.{
  ℕ, zero, suc, ◌+◌, ◌-◌, ◌*◌, ◌%◌, ◌^◌, ◌≤◌, ◌<◌, ◌≡◌, ◌≢◌, refl, sym, ◌∙◌, inl, inr, ◌⊎◌, arith,
  true, false, ltb, ◌==◌, Bool-cases, Option, none, some, Rc, ok, enoent,
}
use yatos.Vm.Space.{page_size, Mapping, Vm}
use yatos.Vm.Pages.{
  page_no, set_page, dec_page_map_count, hal_unmap_user_page, page_rounds, unmap_loop, unmap_range,
}

-- The `n` pages from the page number `p` on are not mapped; nothing else has changed but the marks and counts of frames.
pub record Unmaps (p n : ℕ) (s s' : Vm) : Type 0 where
  pub inside : (k : ℕ) → p ≤ k → k < p + n → s'.pages k ≡ none
  pub outside : (k : ℕ) → (k < p) ⊎ (p + n ≤ k) → s'.pages k ≡ s.pages k
  pub areas_kept : s'.areas ≡ s.areas
  pub free_kept : s'.free_pages ≡ s.free_pages

dec_page_map_count-keeps :
    (s : Vm) (q : ℕ)
    → ((dec_page_map_count s q).pages ≡ s.pages)
      × ((dec_page_map_count s q).areas ≡ s.areas)
      × ((dec_page_map_count s q).free_pages ≡ s.free_pages)
unfolding dec_page_map_count
dec_page_map_count-keeps s q = elim (Bool-cases ((s.map_counts q + (2 ^ 64 - 1)) % 2 ^ 64 == 0)) [
  | inl i ↦ rw i (refl, refl, refl)
  | inr i ↦ rw i (refl, refl, refl)
]

pub set_page-same : (s : Vm) (p : ℕ) (m : Option Mapping) → (set_page s p m).pages p ≡ m
set_page-same s p m = let e : (p == p) ≡ true = ground arith in rw e refl

pub set_page-other :
    (s : Vm) (p k : ℕ) (m : Option Mapping) → k ≢ p → (set_page s p m).pages k ≡ s.pages k
set_page-other s p k m h = let e : (k == p) ≡ false = ground arith in rw e refl

pub hal_unmap_user_page-Unmaps :
    (s : Vm) (vaddr : ℕ) → Unmaps (page_no vaddr) 1 s (hal_unmap_user_page s vaddr).1
unfolding hal_unmap_user_page
hal_unmap_user_page-Unmaps s vaddr = go (s.pages (page_no vaddr)) refl
  where
    go :
        (o : Option Mapping)
        → s.pages (page_no vaddr) ≡ o
        → Unmaps
            (page_no vaddr)
            1
            s
            (elim o as (λ x. Rc × Vm) [
              | none ↦ (enoent, s)
              | some m ↦ (ok, dec_page_map_count (set_page s (page_no vaddr) none) m.page)
            ]).1
    go none i = record {
      inside = λ k a b. let e : k ≡ page_no vaddr = omega arith in rw e i;
      outside = λ k a. refl;
      areas_kept = refl;
      free_kept = refl;
    }
    go (some m) i =
        let kept = dec_page_map_count-keeps (set_page s (page_no vaddr) none) m.page in
        record {
          inside = λ k a b.
              let e : k ≡ page_no vaddr = omega arith in
              rw (kept.0, e) (set_page-same s (page_no vaddr) none);
          outside = λ k a.
              let e : k ≢ page_no vaddr = omega arith in
              rw kept.0 (set_page-other s (page_no vaddr) k none e);
          areas_kept = kept.1;
          free_kept = kept.2;
        }

Unmaps-append :
    (p n m : ℕ) (a b c : Vm) → Unmaps p n a b → Unmaps (p + n) m b c → Unmaps p (n + m) a c
Unmaps-append p n m a b c x y = record {
  inside = λ k from to. elim (cut (p + n) k) [
    | inl below ↦ y.outside k (inl below) ∙ x.inside k from below
    | inr above ↦ y.inside k above (omega arith)
  ];
  outside = λ k o. elim o [
    | inl below ↦ y.outside k (inl (omega arith)) ∙ x.outside k (inl below)
    | inr above ↦ y.outside k (inr (omega arith)) ∙ x.outside k (inr (omega arith))
  ];
  areas_kept = y.areas_kept ∙ x.areas_kept;
  free_kept = y.free_kept ∙ x.free_kept;
}
  where
    cut : (e k : ℕ) → (k < e) ⊎ (e ≤ k)
    cut e k = elim (Bool-cases (ltb k e)) [
      | inl i ↦ inl (ground (arith, i))
      | inr i ↦ inr (ground (arith, i))
    ]

Unmaps-none : (p : ℕ) (s : Vm) → Unmaps p 0 s s
Unmaps-none p s = record {
  inside = λ k from to. absurd (omega arith);
  outside = λ k o. refl;
  areas_kept = refl;
  free_kept = refl;
}

unmap_loop-Unmaps : (n : ℕ) (s : Vm) (vaddr : ℕ) → Unmaps (page_no vaddr) n s (unmap_loop n s vaddr)
unfolding unmap_loop
unmap_loop-Unmaps zero s vaddr = Unmaps-none (page_no vaddr) s
unmap_loop-Unmaps (suc n) s vaddr =
    let next : page_no (vaddr + page_size) ≡ page_no vaddr + 1 = omega arith in
    let one : 1 + n ≡ suc n = omega arith in
    let first = (hal_unmap_user_page s vaddr).1 in
    let rest : Unmaps (page_no vaddr + 1) n first (unmap_loop n first (vaddr + page_size)) =
      rw (sym next) (unmap_loop-Unmaps n first (vaddr + page_size)) in
    rw (sym one) (
      Unmaps-append (page_no vaddr) 1 n s first (unmap_loop n first (vaddr + page_size))
        (hal_unmap_user_page-Unmaps s vaddr) rest)

-- Unmapping a range whose bounds are a whole number of pages apart takes the pages of that range out of the page
-- tables, and no other; the areas and the list of the page allocator stay as they are.
pub unmap_range-Unmaps :
    (s : Vm) (start n : ℕ)
    → Unmaps (page_no start) n s (unmap_range s start (start + page_size * n)).1
unfolding unmap_range
unmap_range-Unmaps s start n =
    let e : page_rounds start (start + page_size * n) ≡ n = omega arith in
    rw e (unmap_loop-Unmaps n s start)
