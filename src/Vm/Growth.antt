-- ===== src/Vm/Growth.antt =====
-- vm/vm.c: growing the heap of a process.
use yatos.Prelude.{
  ℕ, ◌+◌, ◌*◌, ◌%◌, ◌≤◌, ◌<◌, ◌≡◌, ◌≢◌, refl, ap, ◌∙◌, inl, inr, ◌⊎◌, arith, true, false, ltb, ◌==◌,
  if◌then◌else◌, length, set, Option, none, some, Exec, done, ◌>>=◌, Rc, ok, enomem, is_ok,
}
use yatos.Bits.{test_bit}
use yatos.Vm.Space.{page_size, page_start, page_up, user_vaddr_limit, Vma, Vm, vm_find_vma}
use yatos.Vm.Pages.{page_no, map_newpage_range}
use yatos.Vm.Resize.{heap_bit, old_if, resize_vma, resize_found, vm_resize_area}
use yatos.Vm.Mapping.{HasTables}
use yatos.Vm.NewPages.{MapsNew, RollsBack, map_newpage_range-maps}

-- what resize_vma does with the answer for the new pages
abbrev grown : ℕ → Vma → ℕ → Rc × Vm → Exec (Rc × Vm)
grown i v new_end r =
    if is_ok r.0
    then done (
      ok,
      record (r.1) { areas = set (r.1.areas) i (record v { start = v.start; end = new_end }) },
    )
    else done r

resize_vma-grows :
    (s : Vm) (i : ℕ) (v : Vma) (end : ℕ)
    → v.start ≢ 0
    → v.start % page_size ≡ 0
    → end % page_size ≡ 0
    → v.start ≤ v.end
    → v.end < end
    → resize_vma s i v v.start end ≡ map_newpage_range s v.end end v.prot >>= grown i v end
unfolding resize_vma map_newpage_range
resize_vma-grows s i v end pos low high le lt =
    let e1 : (v.start == 0) ≡ false = ground (arith, pos) in
    let e2 : page_start v.start ≡ v.start = omega (arith, low) in
    let e3 : page_up end ≡ end = ground (arith, high) in
    let e4 : ltb end v.start ≡ false = ground (arith, le, lt) in
    let e5 : (v.start == v.start) ≡ true = ground arith in
    let e6 : (v.end == end) ≡ false = ground (arith, lt) in
    let e7 : ltb v.end end ≡ true = ground (arith, lt) in rw (e1, e2, e3, e4, e5, e6, e7) refl

-- the end of the request: what vm_resize_area makes of the answer
abbrev answer : ℕ → Rc × Vm → Exec (Rc × Option ℕ × Vm)
answer old r = done (r.0, old_if r.0 old, r.1)

resize_found-heap :
    (s : Vm) (i : ℕ) (v : Vma) (new_addr : ℕ)
    → test_bit v.flags heap_bit ≡ true
    → v.end < page_up new_addr
    → vm_find_vma s (page_up new_addr) ≡ none
    → resize_found s (i, v) new_addr ≡ resize_vma s i v v.start (page_up new_addr) >>= answer v.end
unfolding resize_found vm_find_vma resize_vma
resize_found-heap s i v new_addr h lt free =
    let e : ltb v.end (page_up new_addr) ≡ true = ground (arith, lt) in rw (h, free, e) refl

vm_resize_area-found :
    (s : Vm) (fault_addr new_addr : ℕ) (r : ℕ × Vma)
    → fault_addr ≢ 0
    → new_addr ≢ 0
    → fault_addr < user_vaddr_limit
    → new_addr < user_vaddr_limit
    → vm_find_vma s fault_addr ≡ some r
    → vm_resize_area s fault_addr new_addr ≡ resize_found s r new_addr
unfolding vm_resize_area vm_find_vma resize_found
vm_resize_area-found s fault_addr new_addr r f0 n0 f n found =
    let e1 : (fault_addr == 0) ≡ false = ground (arith, f0) in
    let e2 : (new_addr == 0) ≡ false = ground (arith, n0) in
    let e3 : ltb fault_addr user_vaddr_limit ≡ true = ground (arith, f) in
    let e4 : ltb new_addr user_vaddr_limit ≡ true = ground (arith, n) in
    rw (e1, e2, e3, e4, found) refl

grown-ok :
    (i : ℕ) (v : Vma) (end : ℕ) (m : Exec (Rc × Vm)) (s' : Vm)
    → m ≡ done (ok, s')
    → ((m >>= grown i v end) >>= answer v.end)
      ≡ done (ok, some v.end, record s' { areas = set s'.areas i (record v { end = end }) })
grown-ok i v end m s' h = rw h refl

grown-enomem :
    (i : ℕ) (v : Vma) (end : ℕ) (m : Exec (Rc × Vm)) (s' : Vm)
    → m ≡ done (enomem, s')
    → ((m >>= grown i v end) >>= answer v.end) ≡ done (enomem, none, s')
grown-enomem i v end m s' h = rw h refl

-- A heap of whole pages, found by an address in it, is grown by `n` pages, up to an address that, rounded up to a
-- page boundary, is in no area; the page tables above the new pages are there. Then no assertion fails. Where the page allocator has as many pages, each new page is
-- mapped to one of its own, and the end of the heap alone moves. Otherwise the answer is -ENOMEM, every area stays as
-- it is, and the new pages that had been mapped are unmapped again.
pub vm_resize_area-heap :
    (s : Vm) (fault_addr new_addr i : ℕ) (v : Vma) (n : ℕ)
    → ((j : ℕ) → j < n → HasTables s (page_no v.end + j))
    → fault_addr ≢ 0
    → new_addr ≢ 0
    → fault_addr < user_vaddr_limit
    → new_addr < user_vaddr_limit
    → vm_find_vma s fault_addr ≡ some (i, v)
    → test_bit v.flags heap_bit ≡ true
    → v.prot ≢ 0
    → v.start ≢ 0
    → v.start % page_size ≡ 0
    → v.start ≤ v.end
    → v.end % page_size ≡ 0
    → 0 < n
    → page_up new_addr ≡ v.end + page_size * n
    → vm_find_vma s (page_up new_addr) ≡ none
    → ((n ≤ length s.free_pages)
        × (s' : Vm) × (vm_resize_area s fault_addr new_addr
            ≡ done (
              ok,
              some v.end,
              record s' { areas = set s'.areas i (record v { end = page_up new_addr }) },
            ))
        × MapsNew (page_no v.end) n v.prot s s')
      ⊎ ((length s.free_pages < n)
          × (s' : Vm) × (vm_resize_area s fault_addr new_addr ≡ done (enomem, none, s'))
          × RollsBack (page_no v.end) (length s.free_pages) s s')
vm_resize_area-heap s fault_addr new_addr i v n t f0 n0 f l found heap prot pos low le high more up
      free =
    let e : ℕ = page_up new_addr in
    let lt : v.end < page_up new_addr = omega (arith, up, more) in
    let aligned : page_up new_addr % page_size ≡ 0 = omega (arith, up, high) in
    let run1 = vm_resize_area-found s fault_addr new_addr (i, v) f0 n0 f l found in
    let run2 = resize_found-heap s i v new_addr heap lt free in
    let run3 = resize_vma-grows s i v e pos low aligned le lt in
    let run = run1 ∙ run2 ∙ ap (λ m. m >>= answer v.end) run3 in
    elim (map_newpage_range-maps s v.end n v.prot t prot) [
      | inl (room, s', ran, maps) ↦
          inl (
            room,
            s',
            run ∙ grown-ok i v e (map_newpage_range s v.end e v.prot) s' (rw up ran),
            maps,
          )
      | inr (short, s', ran, back) ↦ inr (
        short,
        s',
        run ∙ grown-enomem i v e (map_newpage_range s v.end e v.prot) s' (rw up ran),
        back,
      )
    ]
