-- ===== src/Vm/Mapping.antt =====
-- hal/x86-64/mm/pgtbl.c: mapping one page for a user, and the protection that is read back.
use yatos.Prelude.{
  ℕ, ◌/◌, ◌%◌, ◌^◌, ◌<◌, ◌≡◌, ◌≢◌, refl, ap, ◌∙◌, inl, inr, arith, true, false, ltb, ◌==◌,
  if◌then◌else◌, Bool-cases, List, ◌∷◌, some, done, ok,
}
use yatos.Bits.{test_bit, set_bit}
use yatos.Vm.Space.{page_size, page_start, user_vaddr_limit, vm_find_vma, Vma, Mapping, Vm}
use yatos.Vm.Pages.{
  page_no, set_page, set_used, get_free_page, vm_map_newpage, inc_page_map_count,
  vma_prot_to_page_flags, page_flags_to_vma_prot, alloc_pdp_tbl, alloc_pdir_tbl, alloc_pte_tbl,
  hal_map_user_page, hal_translate_user_page, write_bit, execute_bit,
}
use yatos.Vm.Ranges.{set_page-same}

abbrev pub entry_of : ℕ → ℕ → Mapping
entry_of kpaddr prot = record {
  page = page_start kpaddr;
  attr = vma_prot_to_page_flags prot % page_size;
}

abbrev pub mapped : Vm → ℕ → ℕ → ℕ → Vm
mapped s vaddr kpaddr prot =
    inc_page_map_count (set_page s (page_no vaddr) (some (entry_of kpaddr prot)))
      (page_start kpaddr)

vma_prot_to_page_flags-some : (prot : ℕ) → prot ≢ 0 → (vma_prot_to_page_flags prot == 0) ≡ false
unfolding vma_prot_to_page_flags set_bit
vma_prot_to_page_flags-some prot h =
    let e : (prot == 0) ≡ false = ground (arith, h) in
    elim (Bool-cases (test_bit prot write_bit)) [
      | inl w ↦ elim (Bool-cases (test_bit prot execute_bit)) [
        | inl x ↦ rw (e, w, x) refl
        | inr x ↦ rw (e, w, x) refl
      ]
      | inr w ↦ elim (Bool-cases (test_bit prot execute_bit)) [
        | inl x ↦ rw (e, w, x) refl
        | inr x ↦ rw (e, w, x) refl
      ]
    ]

-- The tables above the entry of the page number are there.
abbrev pub HasTables : Vm → ℕ → Type 0
HasTables s n =
    (s.pdp_tables (n / 2 ^ 27) ≡ true)
    × (s.pdir_tables (n / 2 ^ 18) ≡ true)
    × (s.pte_tables (n / 2 ^ 9) ≡ true)

pub hal_map_user_page-maps :
    (s : Vm) (vaddr kpaddr prot : ℕ)
    → prot ≢ 0
    → HasTables s (page_no vaddr)
    → hal_map_user_page s vaddr kpaddr prot ≡ done (ok, mapped s vaddr kpaddr prot)
unfolding hal_map_user_page alloc_pdp_tbl alloc_pdir_tbl alloc_pte_tbl
hal_map_user_page-maps s vaddr kpaddr prot h t =
    let e = vma_prot_to_page_flags-some prot h in rw (e, t.0, t.1, t.2) refl

protection-read_back :
    (prot : ℕ)
    → prot ≢ 0
    → page_flags_to_vma_prot (vma_prot_to_page_flags prot % page_size)
      ≡ (if test_bit prot write_bit then 7 else 5)
unfolding vma_prot_to_page_flags page_flags_to_vma_prot set_bit
protection-read_back prot h =
    let e : (prot == 0) ≡ false = ground (arith, h) in
    elim (Bool-cases (test_bit prot write_bit)) [
      | inl w ↦ elim (Bool-cases (test_bit prot execute_bit)) [
        | inl x ↦ rw (e, w, x) refl
        | inr x ↦ rw (e, w, x) refl
      ]
      | inr w ↦ elim (Bool-cases (test_bit prot execute_bit)) [
        | inl x ↦ rw (e, w, x) refl
        | inr x ↦ rw (e, w, x) refl
      ]
    ]

inc_page_map_count-pages : (s : Vm) (q : ℕ) → (inc_page_map_count s q).pages ≡ s.pages
unfolding inc_page_map_count
inc_page_map_count-pages s q = refl

pub mapped-pages :
    (s : Vm) (vaddr kpaddr prot : ℕ)
    → (mapped s vaddr kpaddr prot).pages (page_no vaddr) ≡ some (entry_of kpaddr prot)
mapped-pages s vaddr kpaddr prot =
    rw
      (inc_page_map_count-pages (set_page s (page_no vaddr) (some (entry_of kpaddr prot)))
        (page_start kpaddr))
      (set_page-same s (page_no vaddr) (some (entry_of kpaddr prot)))

hal_translate_user_page-entry :
    (s : Vm) (a : ℕ) (m : Mapping)
    → s.pages (page_no a) ≡ some m
    → hal_translate_user_page s a ≡ some (m.page, page_flags_to_vma_prot m.attr)
unfolding hal_translate_user_page
hal_translate_user_page-entry s a m h = rw (h, hal_translate_user_page) refl

-- Mapping a page with some protection, where the page tables above its entry are there, ends without a failed assertion, and
-- the translation of every address of that page is then the start of the page that was given. The protection read
-- back allows reading and execution whatever was asked for, and writing exactly if it was.
pub hal_translate_user_page-map :
    (s : Vm) (vaddr kpaddr prot a : ℕ)
    → prot ≢ 0
    → HasTables s (page_no vaddr)
    → page_no a ≡ page_no vaddr
    → (s' : Vm) × (hal_map_user_page s vaddr kpaddr prot ≡ done (ok, s'))
      × (hal_translate_user_page s' a
          ≡ some (page_start kpaddr, if test_bit prot write_bit then 7 else 5))
hal_translate_user_page-map s vaddr kpaddr prot a h t e =
    let there = mapped-pages s vaddr kpaddr prot in
    let found : (mapped s vaddr kpaddr prot).pages (page_no a) ≡ some (entry_of kpaddr prot) =
      rw e there in
    (
      mapped s vaddr kpaddr prot,
      hal_map_user_page-maps s vaddr kpaddr prot h t,
      hal_translate_user_page-entry (mapped s vaddr kpaddr prot) a (entry_of kpaddr prot) found
          ∙ ap (λ q. some (page_start kpaddr, q)) (protection-read_back prot h),
    )

pub get_free_page-first :
    (s : Vm) (p : ℕ) (ps : List ℕ)
    → s.free_pages ≡ p ∷ ps
    → get_free_page s ≡ some (p, set_used (record s { free_pages = ps }) p true)
unfolding get_free_page
get_free_page-first s p ps h = rw h refl

pub vm_map_newpage-maps :
    (s : Vm) (vaddr i : ℕ) (r : Vma) (p : ℕ) (ps : List ℕ)
    → vaddr < user_vaddr_limit
    → vm_find_vma s vaddr ≡ some (i, r)
    → r.prot ≢ 0
    → HasTables s (page_no vaddr)
    → s.free_pages ≡ p ∷ ps
    → vm_map_newpage s vaddr
      ≡ done (ok, mapped (set_used (record s { free_pages = ps }) p true) vaddr p r.prot)
unfolding vm_map_newpage vm_find_vma get_free_page
vm_map_newpage-maps s vaddr i r p ps low found h t f =
    let e : ltb vaddr user_vaddr_limit ≡ true = ground (arith, low) in
    let taken = set_used (record s { free_pages = ps }) p true in
    rw (e, found, f) (hal_map_user_page-maps taken vaddr p r.prot h t)
