-- ===== src/Vm/Space.antt =====
-- vm/vm.c, vm/vm-copy-inout.c and include/kern/vm.h: the areas of an address space, in the order of the tree
-- that holds them; making an area, finding the area of an address, and the test before a user access.
use yatos.Prelude.{
  ℕ, suc, ◌+◌, ◌-◌, ◌%◌, ◌^◌, Bool, true, false, not, ◌&&◌, ◌||◌, ltb, leb, ◌==◌, if◌then◌else◌,
  List, [], ◌∷◌, Option, none, some, Exec, done, stop, Rc, ok, enomem, ebusy,
}
use Prim.Native.Nat.{bit_and}

abbrev pub page_size : ℕ
page_size = 4096

abbrev pub kern_vma_base : ℕ
kern_vma_base = 18446603336221196288

abbrev pub user_vaddr_limit : ℕ
user_vaddr_limit = 140737488355328

abbrev pub page_aligned : ℕ → Bool
page_aligned addr = addr % page_size == 0

abbrev pub page_start : ℕ → ℕ
page_start addr = addr - addr % page_size

abbrev pub page_next : ℕ → ℕ
page_next addr = (page_start addr + page_size) % 2 ^ 64

-- the address itself at a page boundary, else the next one: the code writes it out at each place
abbrev pub page_up : ℕ → ℕ
page_up addr = if page_aligned addr then addr else page_next addr

-- `vma`
pub record Vma : Type 0 where
  pub start : ℕ
  pub end : ℕ
  pub prot : ℕ
  pub flags : ℕ

-- an entry of the page tables: the address of the page in the kernel, and the low 12 bits, its attributes
pub record Mapping : Type 0 where
  pub page : ℕ
  pub attr : ℕ

-- `vm`: the areas in the order of their tree, and the page tables by page number: which tables of the levels PDP, PDIR
-- and PTE are there, each by the first of the page number's bits, and the entries that are present; and of the page frames, by their
-- address in the kernel, the pages that the page allocator will hand out, those that are marked as in use, and how
-- often each is mapped
pub record Vm : Type 0 where
  pub areas : List Vma
  pub pdp_tables : ℕ → Bool
  pub pdir_tables : ℕ → Bool
  pub pte_tables : ℕ → Bool
  pub pages : ℕ → Option Mapping
  pub free_pages : List ℕ
  pub used : ℕ → Bool
  pub map_counts : ℕ → ℕ

-- the four tests of check_vma_overlap_nolock, for an area of the address space
abbrev pub collides : Vma → ℕ → ℕ → Bool
collides r pg_start pg_end =
    (leb r.start pg_start && ltb pg_start r.end)
    || (leb r.start pg_end && leb pg_end r.end)
    || (leb pg_start r.start && ltb r.start pg_end)
    || (ltb pg_start r.end && leb r.end pg_end)

unfoldable pub overlap_loop : List Vma → ℕ → ℕ → Bool
overlap_loop [] pg_start pg_end = false
overlap_loop (r ∷ rs) pg_start pg_end =
    let rest = overlap_loop rs pg_start pg_end in if collides r pg_start pg_end then true else rest

unfoldable pub check_vma_overlap : Vm → Vma → Rc
unfolding overlap_loop
check_vma_overlap space vmap =
    let pg_start = page_start vmap.start in
    let pg_end = page_up vmap.end in
    if leb kern_vma_base pg_end
    then ebusy
    else if overlap_loop space.areas pg_start pg_end
    then ebusy
    else ok

-- `insert` is RB_INSERT of the tree, with `none` where the key is taken; `memory` says whether kmalloc gives
-- the record of the area.
unfoldable pub vm_create_vma :
    (List Vma → Vma → Option (List Vma)) → Bool → Vm → ℕ → ℕ → ℕ → ℕ → Exec (Rc × Vm)
unfolding check_vma_overlap
vm_create_vma insert memory space start size prot vflags =
    let vmap : Vma = record {
      start = start;
      end = (start + size) % 2 ^ 64;
      prot = prot;
      flags = vflags;
    } in
    if not memory then done (enomem, space) else elim (check_vma_overlap space vmap) [
      | ok ↦ elim (insert space.areas vmap) [
        | none ↦ stop
        | some l ↦ done (ok, record space { areas = l })
      ]
      | rc ↦ done (rc, space)
    ]

abbrev pub contains : Vma → ℕ → Bool
contains r vaddr =
    (leb r.start vaddr && ltb vaddr r.end) || ((r.start == r.end) && (vaddr == r.start))

-- The loop of _vm_find_vma_nolock: the place of the area in the order of the tree, and the area
unfoldable pub find_loop : List Vma → ℕ → ℕ → Option (ℕ × Vma)
find_loop [] i vaddr = none
find_loop (r ∷ rs) i vaddr =
    let rest = find_loop rs (suc i) vaddr in if contains r vaddr then some (i, r) else rest

unfoldable pub vm_find_vma : Vm → ℕ → Option (ℕ × Vma)
unfolding find_loop
vm_find_vma space vaddr = find_loop space.areas 0 vaddr

-- user_area_can_access_nolock
unfoldable pub user_area_can_access : Vm → ℕ → ℕ → ℕ → Bool
unfolding vm_find_vma
user_area_can_access space start count prot = elim (vm_find_vma space (page_start start)) [
  | none ↦ false
  | some (i, vmap) ↦
      if ltb vmap.end (page_up ((start + count) % 2 ^ 64))
      then false
      else not (bit_and vmap.prot prot == 0)
]

-- `is_kernel`: whether the address space is that of the kernel's process
unfoldable pub vm_user_area_can_access : Bool → Vm → ℕ → ℕ → ℕ → Bool
unfolding user_area_can_access
vm_user_area_can_access is_kernel space start count prot =
    if is_kernel then true else user_area_can_access space start count prot
