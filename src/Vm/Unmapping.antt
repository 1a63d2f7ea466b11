-- ===== src/Vm/Unmapping.antt =====
-- vm/vm.c and hal/x86-64/mm/pgtbl.c: what becomes of a page that is unmapped again.
use yatos.Prelude.{
  ℕ, ◌<◌, ◌≡◌, ◌≢◌, refl, ap, ◌∙◌, arith, true, false, ltb, ◌==◌, List, ◌∷◌, none, some, done, ok,
}
use yatos.Vm.Space.{page_start, user_vaddr_limit, vm_find_vma, Vma, Mapping, Vm}
use yatos.Vm.Pages.{
  page_no, set_page, set_used, set_count, dec_page_map_count, hal_unmap_user_page, vm_map_newpage,
  vm_unmap_addr, inc_page_map_count, hal_translate_user_page,
}
use yatos.Vm.Ranges.{set_page-same}
use yatos.Vm.Mapping.{entry_of, mapped, HasTables, mapped-pages, vm_map_newpage-maps}

pub hal_unmap_user_page-entry :
    (s : Vm) (vaddr : ℕ) (m : Mapping)
    → s.pages (page_no vaddr) ≡ some m
    → hal_unmap_user_page s vaddr
      ≡ (ok, dec_page_map_count (set_page s (page_no vaddr) none) m.page)
unfolding hal_unmap_user_page dec_page_map_count
hal_unmap_user_page-entry s vaddr m h = rw (h, hal_unmap_user_page) refl

-- the last mapping of a page is gone
dec_page_map_count-last :
    (s : Vm) (q : ℕ)
    → s.map_counts q ≡ 1
    → dec_page_map_count s q ≡ set_used (set_count s q 0) q false
unfolding dec_page_map_count
dec_page_map_count-last s q h = rw h refl

mapped-counts :
    (s : Vm) (vaddr q prot : ℕ)
    → s.map_counts (page_start q) ≡ 0
    → (mapped s vaddr q prot).map_counts (page_start q) ≡ 1
unfolding inc_page_map_count
mapped-counts s vaddr q prot h =
    let e : (page_start q == page_start q) ≡ true = ground arith in rw (e, h) refl

vm_unmap_addr-found :
    (s : Vm) (vaddr : ℕ) (r : ℕ × Vma)
    → vaddr < user_vaddr_limit
    → vm_find_vma s vaddr ≡ some r
    → vm_unmap_addr s vaddr ≡ (ok, (hal_unmap_user_page s vaddr).1)
unfolding vm_unmap_addr vm_find_vma
vm_unmap_addr-found s vaddr r low found =
    let e : ltb vaddr user_vaddr_limit ≡ true = ground (arith, low) in rw (e, found) refl

-- the address space after a new page was mapped and unmapped again
abbrev pub after_unmap : Vm → ℕ → ℕ → ℕ → Vm
after_unmap s vaddr p prot =
    let s' = mapped s vaddr p prot in
    set_used (set_count (set_page s' (page_no vaddr) none) (page_start p) 0) (page_start p) false

vm_unmap_addr-mapped :
    (s : Vm) (vaddr p prot : ℕ) (r : ℕ × Vma)
    → vaddr < user_vaddr_limit
    → vm_find_vma s vaddr ≡ some r
    → s.map_counts (page_start p) ≡ 0
    → vm_unmap_addr (mapped s vaddr p prot) vaddr ≡ (ok, after_unmap s vaddr p prot)
unfolding vm_find_vma inc_page_map_count
vm_unmap_addr-mapped s vaddr p prot r low found c =
    let s' = mapped s vaddr p prot in
    let h = hal_unmap_user_page-entry s' vaddr (entry_of p prot) (mapped-pages s vaddr p prot) in
    let d =
      dec_page_map_count-last (set_page s' (page_no vaddr) none) (page_start p)
        (mapped-counts s vaddr p prot c) in
    let u = vm_unmap_addr-found s' vaddr r low found in
    u ∙ ap (λ x. (ok, x.1)) h ∙ ap (λ x. (ok, x)) d

hal_translate_user_page-none :
    (s : Vm) (a : ℕ) → s.pages (page_no a) ≡ none → hal_translate_user_page s a ≡ none
unfolding hal_translate_user_page
hal_translate_user_page-none s a h = rw (h, hal_translate_user_page) refl

-- A new page that is mapped at a user address of an area with some protection, where the page tables above its
-- entry are there and the page was mapped nowhere, and that is then unmapped, is lost: both calls answer 0, the address is translated no more, and the page is marked as free with a count of 0, while the list of the
-- page allocator has neither got it back nor changed otherwise since the page was taken off.
pub vm_unmap_addr-map_newpage :
    (s : Vm) (vaddr i : ℕ) (r : Vma) (p : ℕ) (ps : List ℕ)
    → vaddr < user_vaddr_limit
    → vm_find_vma s vaddr ≡ some (i, r)
    → r.prot ≢ 0
    → HasTables s (page_no vaddr)
    → s.free_pages ≡ p ∷ ps
    → page_start p ≡ p
    → s.map_counts p ≡ 0
    → (s1 s2 : Vm) × (vm_map_newpage s vaddr ≡ done (ok, s1))
      × (vm_unmap_addr s1 vaddr ≡ (ok, s2))
      × (hal_translate_user_page s2 vaddr ≡ none)
      × (s2.free_pages ≡ ps)
      × (s2.used p ≡ false)
      × (s2.map_counts p ≡ 0)
unfolding vm_find_vma inc_page_map_count
vm_unmap_addr-map_newpage s vaddr i r p ps low found h t f aligned c =
    let taken = set_used (record s { free_pages = ps }) p true in
    let count : taken.map_counts (page_start p) ≡ 0 = rw aligned c in
    let self : (p == p) ≡ true = ground arith in
    let s2 = after_unmap taken vaddr p r.prot in
    (
      mapped taken vaddr p r.prot,
      s2,
      vm_map_newpage-maps s vaddr i r p ps low found h t f,
      vm_unmap_addr-mapped taken vaddr p r.prot (i, r) low found count,
      hal_translate_user_page-none s2 vaddr
          (set_page-same (mapped taken vaddr p r.prot) (page_no vaddr) none),
      refl,
      rw (aligned, self) refl,
      rw (aligned, self) refl,
    )
