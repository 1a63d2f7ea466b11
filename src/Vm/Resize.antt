-- ===== src/Vm/Resize.antt =====
-- vm/vm.c: resizing the heap and the stack, and the end of an address space.
use yatos.Prelude.{
  ℕ, Bool, true, false, not, ◌&&◌, ltb, ◌==◌, if◌then◌else◌, set, Option, none, some, Exec, done,
  ◌>>=◌, ◌>>◌, kassert, Rc, ok, einval, efault, enoent, ebusy, eperm, is_ok,
}
use yatos.Bits.{test_bit}
use yatos.Vm.Space.{page_start, page_up, user_vaddr_limit, Vma, Vm, vm_find_vma}
use yatos.Vm.Pages.{unmap_range, map_newpage_range}

-- the bits of VMA_FLAG_HEAP and VMA_FLAG_STACK
abbrev pub heap_bit : ℕ
heap_bit = 0

abbrev pub stack_bit : ℕ
stack_bit = 1

-- the pages that the start of the area passes over are mapped or unmapped,
abbrev pub move_start : Vm → Vma → ℕ → Exec (Rc × Vm)
move_start space vmap new_start =
    if vmap.start == new_start
    then done (ok, space)
    else if ltb new_start vmap.start
    then map_newpage_range space new_start vmap.start vmap.prot
    else done (unmap_range space vmap.start new_start)

-- and those that its end passes over; `rc` is what the start has given.
abbrev pub move_end : Rc × Vm → Vma → ℕ → Exec (Rc × Vm)
move_end r vmap new_end =
    if vmap.end == new_end
    then done r
    else if ltb vmap.end new_end
    then map_newpage_range r.1 vmap.end new_end vmap.prot
    else done (unmap_range r.1 new_end vmap.end)

-- The area is the one at the place `i`.
unfoldable pub resize_vma : Vm → ℕ → Vma → ℕ → ℕ → Exec (Rc × Vm)
unfolding map_newpage_range unmap_range
resize_vma space i vmap start end = do
  kassert (not (start == 0))
  let new_start = page_start start
  let new_end = page_up end
  if ltb new_end new_start
      then done (einval, space)
      else (move_start space vmap new_start >>= λ r1. move_end r1 vmap new_end >>= λ r2.
          if is_ok r2.0
          then done (
            ok,
            record (r2.1) {
              areas = set (r2.1.areas) i (record vmap { start = new_start; end = new_end });
            },
          )
          else done r2)

-- the area found in the second search, where there is one, else that of the first
abbrev pub found_or : Option (ℕ × Vma) → ℕ × Vma → ℕ × Vma
found_or none r = r
found_or (some q) r = q

abbrev pub is_some : Option (ℕ × Vma) → Bool
is_some none = false
is_some (some q) = true

-- the old address is written where the answer is 0
abbrev pub old_if : Rc → ℕ → Option ℕ
old_if rc old_addr = if is_ok rc then some old_addr else none

-- the part of vm_resize_area behind the search: `r` is the area of `fault_addr`
unfoldable pub resize_found : Vm → ℕ × Vma → ℕ → Exec (Rc × Option ℕ × Vm)
unfolding resize_vma vm_find_vma
resize_found space r new_addr =
    if test_bit r.1.flags heap_bit
    then (let old_addr = r.1.end in
        let new_end = page_up new_addr in
        let q = vm_find_vma space new_end in
        if ltb old_addr new_end && is_some q
        then done (ebusy, none, space)
        else (resize_vma space (found_or q r).0 (found_or q r).1 r.1.start new_end >>= λ x.
            done (x.0, old_if x.0 old_addr, x.1)))
    else if test_bit r.1.flags stack_bit
    then (let old_addr = r.1.start in
        let new_start = page_start new_addr in
        let q = vm_find_vma space new_start in
        if ltb new_start old_addr && is_some q
        then done (ebusy, none, space)
        else (resize_vma space (found_or q r).0 (found_or q r).1 new_start r.1.end >>= λ x.
            done (x.0, old_if x.0 old_addr, x.1)))
    else done (eperm, none, space)

unfoldable pub vm_resize_area : Vm → ℕ → ℕ → Exec (Rc × Option ℕ × Vm)
unfolding resize_found vm_find_vma
vm_resize_area space fault_addr new_addr = do
  kassert (not (fault_addr == 0))
  kassert (not (new_addr == 0))
  if not (ltb fault_addr user_vaddr_limit)
      then done (efault, none, space)
      else if not (ltb new_addr user_vaddr_limit)
      then done (efault, none, space)
      else elim (vm_find_vma space fault_addr) [
        | none ↦ done (enoent, none, space)
        | some r ↦ resize_found space r new_addr
      ]
