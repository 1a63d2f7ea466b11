-- ===== src/Vm/Tests.antt =====
-- Runs of the address space on concrete areas, and witnesses.
use yatos.Prelude.{
  ℕ, ◌+◌, ◌≤◌, ◌<◌, ◌≡◌, ◌≢◌, ◌↔◌, ◌⊎◌, ◌==◌, refl, arith, true, false, List, [], ◌∷◌, length,
  get_elem?, set, Option, none, some, Exec, done, stop, Rc, ok, enomem, ebusy, if◌then◌else◌,
}
use Prim.Native.Nat.{bit_and}
use yatos.Bits.{test_bit}
use yatos.Prelude.Sorted.{has_key, put}
use yatos.Vm.Space.{
  page_start, page_up, kern_vma_base, contains, Vma, Vm, check_vma_overlap, overlap_loop,
  vm_create_vma, find_loop, vm_find_vma, user_area_can_access,
}
use yatos.Vm.Pages.{
  page_no, get_free_page, alloc_pdp_tbl, alloc_pdir_tbl, alloc_pte_tbl, inc_page_map_count,
  vma_prot_to_page_flags, hal_map_user_page, hal_translate_user_page, hal_unmap_user_page, map_loop,
  map_newpage_range, unmap_loop, unmap_range, vm_map_newpage, vm_unmap_addr, write_bit,
}
use yatos.Vm.Resize.{resize_vma, resize_found, vm_resize_area}
use yatos.Vm.Order.{IsArea, IsChain}
use yatos.Vm.Create.{IsInsert, AllFree, new_area, vm_create_vma-IsChain, vm_create_vma-granted}
use yatos.Vm.Access.{vm_find_vma-found, user_area_can_access-bytes}
use yatos.Vm.Mapping.{HasTables, hal_translate_user_page-map}
use yatos.Vm.Unmapping.{vm_unmap_addr-map_newpage}
use yatos.Vm.NewPages.{MapsNew, RollsBack}
use yatos.Vm.Growth.{vm_resize_area-heap}

abbrev insert_sorted : List Vma → Vma → Option (List Vma)
insert_sorted l v = if has_key (λ x. x.start) v.start l then none else some (put (λ x. x.start) v l)

insert_sorted-IsInsert : IsInsert insert_sorted
insert_sorted-IsInsert = record { insert_new = λ l v s h. rw h refl }

abbrev text : Vma
text = record { start = 4096; end = 12288; prot = 5; flags = 4 }

abbrev heap : Vma
heap = record { start = 65536; end = 69632; prot = 3; flags = 1 }

abbrev library : Vma
library = record { start = 77824; end = 81920; prot = 3; flags = 4 }

abbrev space : Vm
space = record {
  areas = text ∷ heap ∷ [];
  pdp_tables = λ k. k == 0;
  pdir_tables = λ k. k == 0;
  pte_tables = λ k. k == 0;
  pages = λ k. none;
  free_pages = 1048576 ∷ 1052672 ∷ [];
  used = λ q. false;
  map_counts = λ q. 0;
}

abbrev crowded : Vm
crowded = record space {
  areas = text ∷ heap ∷ library ∷ [];
  free_pages = 1048576 ∷ 1052672 ∷ 1056768 ∷ 1060864 ∷ [];
}

space-IsChain : IsChain space.areas
space-IsChain = ground arith

-- an area whose end is the start of another one is refused, one whose start is the end of another is made
create_below : vm_create_vma insert_sorted true space 61440 4096 3 4 ≡ done (ebusy, space)
unfolding vm_create_vma check_vma_overlap overlap_loop
create_below = refl

create_above :
    vm_create_vma insert_sorted true space 69632 4096 3 4
    ≡ done (ok, record space { areas = text ∷ heap ∷ new_area 69632 4096 3 4 ∷ [] })
unfolding vm_create_vma check_vma_overlap overlap_loop
create_above = refl

-- an end in the last page of the address space is rounded up to 0, and so passes the test for the kernel's part
create_at_top :
    vm_create_vma insert_sorted true space 18446744073709543424 4097 3 4
    ≡ done (ok, record space { areas = text ∷ heap ∷ new_area 18446744073709543424 4097 3 4 ∷ [] })
unfolding vm_create_vma check_vma_overlap overlap_loop
create_at_top = refl

-- a length that wraps around passes the access test
access_wraps : user_area_can_access space 4096 18446744073709547520 1 ≡ true
unfolding user_area_can_access vm_find_vma find_loop
access_wraps = refl

vm_create_vma-granted_example :
    (vm_create_vma insert_sorted true space 73728 4096 3 4
      ≡ done
          (ok, record space { areas = put (λ x. x.start) (new_area 73728 4096 3 4) space.areas }))
    ↔ ((page_up 77824 < kern_vma_base) × AllFree (page_start 73728) (page_up 77824) space.areas)
vm_create_vma-granted_example =
    vm_create_vma-granted insert_sorted insert_sorted-IsInsert space 73728 4096 3 4 (omega arith)
      (omega arith) space-IsChain

vm_create_vma-IsChain_example :
    let v : Vma = new_area 73728 4096 3 4 in
    let made : List Vma = put (λ x. x.start) v space.areas in
    ((vm_create_vma insert_sorted true space 73728 4096 3 4
        ≡ done (ok, record space { areas = made }))
      × IsArea v
      × AllFree (page_start v.start) (page_up v.end) space.areas
      × IsChain made)
    ⊎ (vm_create_vma insert_sorted true space 73728 4096 3 4 ≡ done (enomem, space))
    ⊎ (vm_create_vma insert_sorted true space 73728 4096 3 4 ≡ done (ebusy, space))
vm_create_vma-IsChain_example =
    vm_create_vma-IsChain insert_sorted insert_sorted-IsInsert true space 73728 4096 3 4
      (omega arith) space-IsChain

vm_find_vma-found_example :
    (vm_find_vma space 65540 ≡ some (1, heap))
    ↔ ((get_elem? space.areas 1 ≡ some heap) × (contains heap 65540 ≡ true))
vm_find_vma-found_example = vm_find_vma-found space 65540 1 heap space-IsChain

can_access : user_area_can_access space 4100 8000 1 ≡ true
unfolding user_area_can_access vm_find_vma find_loop
can_access = refl

user_area_can_access-bytes_example :
    (k : ℕ) × (v : Vma) × (vm_find_vma space (page_start 4100) ≡ some (k, v))
    × (vm_find_vma space 9000 ≡ some (k, v))
    × (9000 < v.end)
    × (bit_and v.prot 1 ≢ 0)
user_area_can_access-bytes_example =
    user_area_can_access-bytes space 4100 8000 1 9000 space-IsChain (omega arith) can_access
      (omega arith) (omega arith)

hal_translate_user_page-map_example :
    (s' : Vm) × (hal_map_user_page space 65536 1048576 1 ≡ done (ok, s'))
    × (hal_translate_user_page s' 65540
        ≡ some (page_start 1048576, if test_bit 1 write_bit then 7 else 5))
hal_translate_user_page-map_example =
    hal_translate_user_page-map space 65536 1048576 1 65540 (omega arith) (refl, refl, refl)
      (omega arith)

heap_found : vm_find_vma space 65536 ≡ some (1, heap)
unfolding vm_find_vma find_loop
heap_found = refl

beyond_heap : vm_find_vma space 73728 ≡ none
unfolding vm_find_vma find_loop
beyond_heap = refl

heap_can_grow : test_bit heap.flags 0 ≡ true
unfolding test_bit
heap_can_grow = refl

vm_unmap_addr-map_newpage_example :
    (s1 s2 : Vm) × (vm_map_newpage space 65536 ≡ done (ok, s1))
    × (vm_unmap_addr s1 65536 ≡ (ok, s2))
    × (hal_translate_user_page s2 65536 ≡ none)
    × (s2.free_pages ≡ 1052672 ∷ [])
    × (s2.used 1048576 ≡ false)
    × (s2.map_counts 1048576 ≡ 0)
vm_unmap_addr-map_newpage_example =
    vm_unmap_addr-map_newpage space 65536 1 heap 1048576 (1052672 ∷ []) (omega arith) heap_found
      (omega arith) (refl, refl, refl) refl (omega arith) refl

heap_tables : (j : ℕ) → j < 1 → HasTables space (page_no heap.end + j)
heap_tables j h = (ground arith, ground arith, ground arith)

-- Where no table is there, a mapping takes three pages.
abbrev bare : Vm
bare = record space {
  pdp_tables = λ k. false;
  pdir_tables = λ k. false;
  pte_tables = λ k. false;
  free_pages = 1048576 ∷ 1052672 ∷ 1056768 ∷ 1060864 ∷ [];
}

abbrev left_of : Exec (Rc × Vm) → Option (List ℕ)
left_of (done (rc, s)) = some s.free_pages
left_of stop = none

tables_taken : left_of (hal_map_user_page bare 65536 1064960 1) ≡ some (1060864 ∷ [])
unfolding hal_map_user_page alloc_pdp_tbl alloc_pdir_tbl alloc_pte_tbl get_free_page
    inc_page_map_count vma_prot_to_page_flags test_bit
tables_taken = refl

vm_resize_area-heap_example :
    ((1 ≤ length space.free_pages)
      × (s' : Vm) × (vm_resize_area space 65536 73000
          ≡ done (
            ok,
            some heap.end,
            record s' { areas = set s'.areas 1 (record heap { end = page_up 73000 }) },
          ))
      × MapsNew (page_no heap.end) 1 heap.prot space s')
    ⊎ ((length space.free_pages < 1)
        × (s' : Vm) × (vm_resize_area space 65536 73000 ≡ done (enomem, none, s'))
        × RollsBack (page_no heap.end) (length space.free_pages) space s')
vm_resize_area-heap_example =
    vm_resize_area-heap space 65536 73000 1 heap 1 heap_tables (omega arith) (omega arith)
      (omega arith) (omega arith) heap_found heap_can_grow (omega arith) (omega arith) (omega arith)
      (omega arith) (omega arith) (omega arith) (ground arith) beyond_heap

abbrev areas_of : Exec (Rc × Option ℕ × Vm) → Option (Rc × List Vma)
areas_of (done (rc, old, s)) = some (rc, s.areas)
areas_of stop = none

-- the heap grows over an area that lies inside the gap
heap_over_library :
    areas_of (vm_resize_area crowded 65536 86016)
    ≡ some (ok, text ∷ record heap { end = 86016 } ∷ library ∷ [])
unfolding vm_resize_area resize_found resize_vma vm_find_vma find_loop map_newpage_range map_loop
    get_free_page hal_map_user_page alloc_pdp_tbl alloc_pdir_tbl alloc_pte_tbl inc_page_map_count
    vma_prot_to_page_flags test_bit
heap_over_library = refl

-- the heap is asked to stay as it is, and the area above it is moved
neighbour_moves :
    areas_of (
      vm_resize_area
        (record space { areas = heap ∷ record library { start = 69632 } ∷ [] })
        65536
        69632)
    ≡ some (ok, heap ∷ record library { start = 65536; end = 69632 } ∷ [])
unfolding vm_resize_area resize_found resize_vma vm_find_vma find_loop map_newpage_range map_loop
    get_free_page hal_map_user_page alloc_pdp_tbl alloc_pdir_tbl alloc_pte_tbl inc_page_map_count
    vma_prot_to_page_flags test_bit unmap_range unmap_loop hal_unmap_user_page
neighbour_moves = refl
