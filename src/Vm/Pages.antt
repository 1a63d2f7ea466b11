-- ===== src/Vm/Pages.antt =====
-- vm/vm.c and hal/x86-64/mm/pgtbl.c: mapping and unmapping pages. The entries of the page tables are
-- a map from page numbers; of the tables of the upper levels the model has which are there.
use yatos.Prelude.{
  ℕ, zero, suc, ◌+◌, ◌-◌, ◌/◌, ◌%◌, ◌^◌, Bool, true, false, not, ltb, ◌==◌, if◌then◌else◌, [], ◌∷◌,
  Option, none, some, Exec, done, stop, ◌>>=◌, Rc, ok, enomem, enoent, efault,
}
use yatos.Bits.{test_bit, set_bit}
use yatos.Vm.Space.{page_size, page_start, user_vaddr_limit, Mapping, Vm, vm_find_vma}

abbrev pub page_no : ℕ → ℕ
page_no vaddr = vaddr / page_size

abbrev pub set_page : Vm → ℕ → Option Mapping → Vm
set_page space n m = record space { pages = λ k. if k == n then m else space.pages k }

abbrev pub set_used : Vm → ℕ → Bool → Vm
set_used space p u = record space { used = λ q. if q == p then u else space.used q }

abbrev pub set_count : Vm → ℕ → ℕ → Vm
set_count space p c = record space { map_counts = λ q. if q == p then c else space.map_counts q }

-- get_free_page: `none` is -ENOMEM
unfoldable pub get_free_page : Vm → Option (ℕ × Vm)
get_free_page space = elim space.free_pages [
  | [] ↦ none
  | p ∷ ps ↦ some (p, set_used (record space { free_pages = ps }) p true)
]

abbrev pub free_page : Vm → ℕ → Vm
free_page space p = set_used (record space { free_pages = p ∷ space.free_pages }) p false

unfoldable pub inc_page_map_count : Vm → ℕ → Vm
inc_page_map_count space p = set_count space p ((space.map_counts p + 1) % 2 ^ 64)

-- A page whose count falls to 0 is marked as not in use; it does not go back to the page allocator.
unfoldable pub dec_page_map_count : Vm → ℕ → Vm
dec_page_map_count space p =
    let count = (space.map_counts p + (2 ^ 64 - 1)) % 2 ^ 64 in
    let counted = set_count space p count in
    if count == 0 then set_used counted p false else counted

-- the bits of VMA_PROT_W and VMA_PROT_X
abbrev pub write_bit : ℕ
write_bit = 1

abbrev pub execute_bit : ℕ
execute_bit = 2

-- PAGE_PRESENT and PAGE_USER are the bits 0 and 2, PAGE_WRITABLE is the bit 1, PAGE_EXECUTE_DISABLE the bit 63.
unfoldable pub vma_prot_to_page_flags : ℕ → ℕ
unfolding set_bit
vma_prot_to_page_flags prot =
    let v0 : ℕ = 5 in
    if prot == 0
    then 0
    else (let v1 = if test_bit prot write_bit then set_bit v0 1 else v0 in
        if not (test_bit prot execute_bit) then set_bit v1 63 else v1)

unfoldable pub page_flags_to_vma_prot : ℕ → ℕ
unfolding test_bit set_bit
page_flags_to_vma_prot prot_bits =
    if not (test_bit prot_bits 0)
    then 0
    else (let v : ℕ = 1 in
        let v1 = if test_bit prot_bits 1 then set_bit v write_bit else v in
        if not (test_bit prot_bits 63) then set_bit v1 execute_bit else v1)

-- The tables of the three levels below the PML4: one that is not there is a page of the page allocator; `none` is -ENOMEM.
unfoldable pub alloc_pdp_tbl : Vm → ℕ → Option Vm
unfolding get_free_page
alloc_pdp_tbl space vaddr =
    let n = page_no vaddr / 2 ^ 27 in
    if space.pdp_tables n then some space else elim (get_free_page space) [
      | none ↦ none
      | some (new_tbl, s) ↦
          some (record s { pdp_tables = λ k. if k == n then true else s.pdp_tables k })
    ]

unfoldable pub alloc_pdir_tbl : Vm → ℕ → Option Vm
unfolding get_free_page
alloc_pdir_tbl space vaddr =
    let n = page_no vaddr / 2 ^ 18 in
    if space.pdir_tables n then some space else elim (get_free_page space) [
      | none ↦ none
      | some (new_tbl, s) ↦
          some (record s { pdir_tables = λ k. if k == n then true else s.pdir_tables k })
    ]

unfoldable pub alloc_pte_tbl : Vm → ℕ → Option Vm
unfolding get_free_page
alloc_pte_tbl space vaddr =
    let n = page_no vaddr / 2 ^ 9 in
    if space.pte_tables n then some space else elim (get_free_page space) [
      | none ↦ none
      | some (new_tbl, s) ↦
          some (record s { pte_tables = λ k. if k == n then true else s.pte_tables k })
    ]

-- `kassert(rc == 0)` behind each of them
abbrev pub asserted : Option Vm → Exec Vm
asserted none = stop
asserted (some s) = done s

-- An area without access is not mapped.
unfoldable pub hal_map_user_page : Vm → ℕ → ℕ → ℕ → Exec (Rc × Vm)
unfolding vma_prot_to_page_flags inc_page_map_count alloc_pdp_tbl alloc_pdir_tbl alloc_pte_tbl
hal_map_user_page space vaddr kpaddr prot =
    let page_attr = vma_prot_to_page_flags prot in
    if page_attr == 0
    then done (ok, space)
    else (asserted (alloc_pdp_tbl space vaddr) >>= λ s1.
        asserted (alloc_pdir_tbl s1 vaddr) >>= λ s2. asserted (alloc_pte_tbl s2 vaddr) >>= λ s3.
        let entry : Mapping = record { page = page_start kpaddr; attr = page_attr % page_size } in
        done
          (ok, inc_page_map_count (set_page s3 (page_no vaddr) (some entry)) (page_start kpaddr)))

-- the page and the protection of the address; `none` is -ENOENT
unfoldable pub hal_translate_user_page : Vm → ℕ → Option (ℕ × ℕ)
unfolding page_flags_to_vma_prot
hal_translate_user_page space vaddr = elim (space.pages (page_no vaddr)) [
  | none ↦ none
  | some m ↦ some (m.page, page_flags_to_vma_prot m.attr)
]

unfoldable pub hal_unmap_user_page : Vm → ℕ → Rc × Vm
unfolding dec_page_map_count
hal_unmap_user_page space vaddr = elim (space.pages (page_no vaddr)) [
  | none ↦ (enoent, space)
  | some m ↦ (ok, dec_page_map_count (set_page space (page_no vaddr) none) m.page)
]

-- the rounds of a loop over the pages from `start` up to `end`
abbrev pub page_rounds : ℕ → ℕ → ℕ
page_rounds start end = (end - start + 4095) / page_size

unfoldable pub unmap_loop : ℕ → Vm → ℕ → Vm
unfolding hal_unmap_user_page
unmap_loop zero space vaddr = space
unmap_loop (suc rounds) space vaddr =
    unmap_loop rounds (hal_unmap_user_page space vaddr).1 (vaddr + page_size)

unfoldable pub unmap_range : Vm → ℕ → ℕ → Rc × Vm
unfolding unmap_loop
unmap_range space start end = (ok, unmap_loop (page_rounds start end) space start)

-- The loop of map_newpage_range, at the page `vaddr`; the new pages are filled with zeroes.
unfoldable pub map_loop : ℕ → Vm → ℕ → ℕ → ℕ → Exec (Rc × Vm)
unfolding get_free_page hal_map_user_page unmap_range
map_loop zero space start vaddr prot = done (ok, space)
map_loop (suc rounds) space start vaddr prot = elim (get_free_page space) [
  | none ↦ done (enomem, (unmap_range space start vaddr).1)
  | some (new_page, space1) ↦ hal_map_user_page space1 vaddr new_page prot >>= λ r. elim r.0 [
    | ok ↦ map_loop rounds r.1 start (vaddr + page_size) prot
    | rc ↦ done (rc, free_page (unmap_range r.1 start vaddr).1 new_page)
  ]
]

unfoldable pub map_newpage_range : Vm → ℕ → ℕ → ℕ → Exec (Rc × Vm)
unfolding map_loop
map_newpage_range space start end prot = map_loop (page_rounds start end) space start start prot

unfoldable pub vm_map_addr : Vm → ℕ → ℕ → Exec (Rc × Vm)
unfolding vm_find_vma hal_map_user_page
vm_map_addr space vaddr kpaddr =
    if ltb vaddr user_vaddr_limit
    then elim (vm_find_vma space vaddr) [
      | none ↦ done (enoent, space)
      | some (i, res) ↦ hal_map_user_page space vaddr kpaddr res.prot
    ]
    else done (efault, space)

unfoldable pub vm_map_newpage : Vm → ℕ → Exec (Rc × Vm)
unfolding vm_find_vma get_free_page hal_map_user_page
vm_map_newpage space vaddr =
    if ltb vaddr user_vaddr_limit
    then elim (vm_find_vma space vaddr) [
      | none ↦ done (enoent, space)
      | some (i, res) ↦ elim (get_free_page space) [
        | none ↦ done (enomem, space)
        | some (new_page, space1) ↦ hal_map_user_page space1 vaddr new_page res.prot
      ]
    ]
    else done (efault, space)

unfoldable pub vm_unmap_addr : Vm → ℕ → Rc × Vm
unfolding vm_find_vma hal_unmap_user_page
vm_unmap_addr space vaddr =
    if ltb vaddr user_vaddr_limit
    then elim (vm_find_vma space vaddr) [
      | none ↦ (enoent, space)
      | some (i, res) ↦ (ok, (hal_unmap_user_page space vaddr).1)
    ]
    else (efault, space)
