-- ===== src/Slab/Sizes.antt =====
-- page/page-kmcache.c and include/kern/page-kmcache.h: the cache of objects of one size, and how its slabs are laid
-- out: the size of a slab, the objects in it, and the offset at which it begins in its pages.
use yatos.Prelude.{
  ℕ, zero, suc, ◌+◌, ◌-◌, ◌*◌, ◌/◌, ◌%◌, ◌^◌, Bool, not, ltb, leb, ◌==◌, if◌then◌else◌, List,
  Option, Exec, done, ◌>>◌, kassert,
}
use yatos.Bits.{test_bit}
use yatos.Buddy.{max_order}
use yatos.Vm.Space.{page_size, page_up}

-- the bytes of a `slab`, with two pointers for each list and SPINLOCK_BT_DEPTH words in its lock
abbrev pub slab_bytes : ℕ
slab_bytes = 16 + 16 + (24 + 8 * 20) + 8 + 8 + 8 + 8

abbrev pub obj_head_bytes : ℕ
obj_head_bytes = 16

abbrev pub default_l1_cache_byte : ℕ
default_l1_cache_byte = 64

-- `slab`: `objects` has the addresses of the heads of its free objects.
pub record Slab : Type 0 where
  pub page : ℕ
  pub color_offset : ℕ
  pub count : ℕ
  pub objects : List ℕ

-- `kmem_cache`: a slab is known by its address. Beside the struct: whether the database of
-- caches has it under its name, the slabs in memory, the slab that the frame of a page names, by page number, and the
-- blocks given back to the page allocator.
pub record Cache : Type 0 where
  pub color_num : ℕ
  pub obj_size : ℕ
  pub slab_size : ℕ
  pub objs_per_slab : ℕ
  pub align : ℕ
  pub color_next : ℕ
  pub sflags : ℕ
  pub limits : ℕ
  pub slab_count : ℕ
  pub usage_count : ℕ
  pub state : ℕ
  pub registered : Bool
  pub partial : List ℕ
  pub full : List ℕ
  pub free : List ℕ
  pub slabs : ℕ → Slab
  pub slab_of : ℕ → Option ℕ
  pub given_back : List ℕ

-- The loop of calc_page_order: the order of the highest bit of `nr_pages` below the bit `order`; `res` is what was in
-- the place of the answer.
unfoldable pub order_loop : ℕ → ℕ → ℕ → ℕ
unfolding test_bit
order_loop zero nr_pages res = res
order_loop (suc order) nr_pages res =
    let rest = order_loop order nr_pages res in if test_bit nr_pages order then order else rest

unfoldable pub calc_page_order : ℕ → ℕ → ℕ
unfolding order_loop
calc_page_order size res =
    if size == 0 then 0 else order_loop max_order (page_up size / page_size) res

-- _kmem_calc_align_offset
abbrev pub kmem_calc_align_offset : Cache → ℕ
kmem_calc_align_offset c =
    if not (c.obj_size % c.align == 0) then c.align - c.obj_size % c.align else 0

-- _kmem_is_off_slab
abbrev pub kmem_is_off_slab : Cache → Bool
kmem_is_off_slab c = leb (page_size / 8) c.obj_size

abbrev pub calc_slab_data_size : Cache → ℕ
calc_slab_data_size c = (obj_head_bytes + kmem_calc_align_offset c + c.obj_size) % 2 ^ 64

-- the bytes that a slab of `bytes` has for objects, and what objects of `size` bytes leave of them
abbrev pub area_of : ℕ → ℕ
area_of bytes = bytes - slab_bytes

-- The loop of calc_off_slab_size: `rounds` orders from `order` on; the size that leaves least.
unfoldable pub off_slab_loop : ℕ → ℕ → ℕ → ℕ → ℕ → ℕ
off_slab_loop zero order size last_remains last_size = last_size
off_slab_loop (suc rounds) order size last_remains last_size =
    let cur_size = page_size * 2 ^ order in
    let cur_remains = area_of cur_size % size in
    let better = ltb cur_remains last_remains in
    off_slab_loop rounds (suc order) size (if better then cur_remains else last_remains)
      (if better then cur_size else last_size)

unfoldable pub calc_off_slab_size : Cache → ℕ
unfolding calc_page_order off_slab_loop
calc_off_slab_size c =
    let size = calc_slab_data_size c in
    let min_order = calc_page_order ((slab_bytes + size) % 2 ^ 64) 0 in
    let last_size = page_size * 2 ^ min_order in
    off_slab_loop (max_order - min_order) min_order size (area_of last_size % size) last_size

unfoldable pub calc_slab_param : Cache → Cache
unfolding calc_off_slab_size
calc_slab_param c =
    let size = if kmem_is_off_slab c then calc_off_slab_size c else page_size in
    record c { slab_size = size; objs_per_slab = area_of size / calc_slab_data_size c }

unfoldable pub setup_color_param : Cache → Cache
setup_color_param c =
    let color_area_size = c.slab_size - slab_bytes - c.objs_per_slab * calc_slab_data_size c in
    let num =
      if ltb color_area_size default_l1_cache_byte
      then 0
      else color_area_size / default_l1_cache_byte + 1 in
    record c { color_num = num; color_next = 0 }

-- assert_kmem_cache_valid asks for a cache that is in the database.
unfoldable pub update_color_offset : Cache → Exec (ℕ × Cache)
update_color_offset c =
    kassert c.registered
    >> done (
        if c.color_num == 0 then (0, c) else (
          c.color_next * default_l1_cache_byte,
          record c { color_next = (c.color_next + 1) % c.color_num },
        ))
