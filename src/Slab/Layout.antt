-- ===== src/Slab/Layout.antt =====
-- page/page-kmcache.c: the sizes that a new cache is given fit.
use yatos.Prelude.{
  ℕ, zero, suc, ◌+◌, ◌-◌, ◌*◌, ◌/◌, ◌%◌, ◌^◌, ◌≤◌, ◌<◌, ◌≡◌, ◌⊎◌, refl, inl, inr, arith, Bool, not,
  ◌==◌, ltb, if◌then◌else◌, Bool-cases, done, Rc, ok, ebusy, is_ok, lt→ltb, ◌&&◌,
}
use native.Mathlib.Nat.{div-mul-le_self, div-le_self, pow-le-pow_right}
use yatos.Bits.{test_bit}
use yatos.Buddy.{max_order}
use yatos.Vm.Space.{page_size, page_up}
use yatos.Slab.Sizes.{
  Cache, slab_bytes, obj_head_bytes, kmem_calc_align_offset, area_of, kmem_is_off_slab,
  calc_slab_data_size, order_loop, calc_page_order, off_slab_loop, calc_off_slab_size,
  calc_slab_param, setup_color_param, default_l1_cache_byte,
}
use yatos.Slab.Api.{init_fields, kmem_cache_init, predefined_bit}
use yatos.Slab.Valid.{IsLaid, IsValid}

-- a size of whole pages, up to the largest block, which is of order max_order - 1
abbrev IsBlock : ℕ → Type 0
IsBlock n = (n % page_size ≡ 0) × (n ≤ page_size * 2 ^ (max_order - 1))

two_pow-IsBlock : (k : ℕ) → k < max_order → IsBlock (page_size * 2 ^ k)
two_pow-IsBlock k h =
    let at_most : k ≤ max_order - 1 = omega (arith, h) in
    let le : 2 ^ k ≤ 2 ^ (max_order - 1) = pow-le-pow_right (omega arith) at_most in
    (omega arith, omega (arith, le))

order_loop-lt : (k n res : ℕ) → res < max_order → k ≤ max_order → order_loop k n res < max_order
unfolding order_loop
order_loop-lt zero n res h le = h
order_loop-lt (suc k) n res h le = elim (Bool-cases (test_bit n k)) [
  | inl e ↦ rw e (omega arith)
  | inr e ↦ rw e (order_loop-lt k n res h (omega arith))
]

off_slab_loop-IsBlock :
    (rounds order size last_remains last : ℕ)
    → order + rounds ≤ max_order
    → IsBlock last
    → IsBlock (off_slab_loop rounds order size last_remains last)
unfolding off_slab_loop
off_slab_loop-IsBlock zero order size last_remains last le b = b
off_slab_loop-IsBlock (suc rounds) order size last_remains last le b =
    elim (Bool-cases (ltb (area_of (page_size * 2 ^ order) % size) last_remains)) [
      | inl e ↦ rw e (
          off_slab_loop-IsBlock rounds (suc order) size (area_of (page_size * 2 ^ order) % size)
            (page_size * 2 ^ order) (omega arith) (two_pow-IsBlock order (omega arith)))
      | inr e ↦
          rw e (off_slab_loop-IsBlock rounds (suc order) size last_remains last (omega arith) b)
    ]

calc_page_order-lt : (size : ℕ) → calc_page_order size 0 < max_order
unfolding calc_page_order
calc_page_order-lt size = elim (Bool-cases (size == 0)) [
  | inl e ↦ rw e (omega arith)
  | inr e ↦ rw e (order_loop-lt max_order (page_up size / page_size) 0 (omega arith) (omega arith))
]

calc_off_slab_size-IsBlock : (c : Cache) → IsBlock (calc_off_slab_size c)
unfolding calc_off_slab_size
calc_off_slab_size-IsBlock c =
    let size = calc_slab_data_size c in
    let order = calc_page_order ((slab_bytes + size) % 2 ^ 64) 0 in
    let le = calc_page_order-lt ((slab_bytes + size) % 2 ^ 64) in
    off_slab_loop-IsBlock (max_order - order) order size (area_of (page_size * 2 ^ order) % size)
      (page_size * 2 ^ order) (omega (arith, le)) (two_pow-IsBlock order le)

calc_slab_param-IsBlock : (c : Cache) → IsBlock (calc_slab_param c).slab_size
unfolding calc_slab_param
calc_slab_param-IsBlock c = elim (Bool-cases (kmem_is_off_slab c)) [
  | inl e ↦ rw e (calc_off_slab_size-IsBlock c)
  | inr e ↦ rw e (omega arith, omega arith)
]

-- where there are objects, they and the data of the slab fit in
calc_slab_param-fits :
    (c : Cache)
    → let c1 = calc_slab_param c in
      0 < c1.objs_per_slab → slab_bytes + c1.objs_per_slab * calc_slab_data_size c1 ≤ c1.slab_size
unfolding calc_slab_param
calc_slab_param-fits c pos =
    let size = (calc_slab_param c).slab_size in
    let d = calc_slab_data_size c in
    let whole = div-mul-le_self (area_of size) d in
    let some_area = div-le_self (area_of size) d in omega (arith, whole, some_area, pos)

setup_color_param-colors :
    (c : Cache)
    → slab_bytes + c.objs_per_slab * calc_slab_data_size c ≤ c.slab_size
    → let c1 = setup_color_param c in
      (c1.color_num ≡ 0)
      ⊎ ((c1.color_next < c1.color_num)
          × ((c1.color_num - 1) * default_l1_cache_byte
                + slab_bytes
                + c1.objs_per_slab * calc_slab_data_size c1
              ≤ c1.slab_size))
unfolding setup_color_param
setup_color_param-colors c fits =
    elim (Bool-cases (
      ltb (c.slab_size - slab_bytes - c.objs_per_slab * calc_slab_data_size c)
        default_l1_cache_byte)) [
          | inl e ↦ rw e (inl refl)
          | inr e ↦ rw e (inr (omega arith, omega (arith, fits)))
        ]

calc_slab_param-keeps : (c : Cache) → (calc_slab_param c).obj_size ≡ c.obj_size
unfolding calc_slab_param
calc_slab_param-keeps c = refl

calc_slab_param-count :
    (c : Cache) → (calc_slab_param c).objs_per_slab ≤ (calc_slab_param c).slab_size
unfolding calc_slab_param
calc_slab_param-count c =
    let size = (calc_slab_param c).slab_size in
    let some_area = div-le_self (area_of size) (calc_slab_data_size c) in omega (arith, some_area)

calc_slab_param_same :
    (c : Cache)
    → kmem_calc_align_offset (calc_slab_param c) + (calc_slab_param c).obj_size
      ≡ kmem_calc_align_offset c + c.obj_size
unfolding calc_slab_param
calc_slab_param_same c = refl

setup_color_param-IsLaid :
    (c : Cache)
    → 0 < c.obj_size
    → 0 < (calc_slab_param c).objs_per_slab
    → obj_head_bytes + kmem_calc_align_offset c + c.obj_size < 2 ^ 64
    → IsLaid (setup_color_param (calc_slab_param c))
unfolding setup_color_param
setup_color_param-IsLaid c sized pos narrow =
    let c1 = calc_slab_param c in
    let block = calc_slab_param-IsBlock c in
    let count = calc_slab_param-count c in
    let fits = calc_slab_param-fits c pos in
    record {
      sized = rw (calc_slab_param-keeps c) sized;
      room = pos;
      wide = omega (arith, block, count);
      bounded = block.1;
      no_wrap = let same = calc_slab_param_same c in omega (arith, same, narrow);
      whole = block.0;
      fits = fits;
      colors = setup_color_param-colors c1 fits;
    }

-- The bytes between a head and its object are at most the alignment.
align_offset-le : (c : Cache) → kmem_calc_align_offset c ≤ c.align
align_offset-le c = elim (Bool-cases (c.obj_size % c.align == 0)) [
  | inl e ↦ rw e (omega arith)
  | inr e ↦ rw e (omega arith)
]

aligned_size-lt :
    (c : Cache) (align : ℕ)
    → c.align ≡ (if align == 0 then 8 else align)
    → c.obj_size + align < 2 ^ 63
    → obj_head_bytes + kmem_calc_align_offset c + c.obj_size < 2 ^ 64
aligned_size-lt c align e low =
    let le = align_offset-le c in
    elim (Bool-cases (align == 0)) [
      | inl z ↦ let eight = rw z at e in omega (arith, le, eight, low)
      | inr z ↦ let same = rw z at e in omega (arith, le, same, low)
    ]

init_fields-IsValid :
    (c : Cache) (size sflags align limits : ℕ)
    → 0 < size
    → size + align < 2 ^ 63
    → 0 < (init_fields c size sflags align limits).objs_per_slab
    → IsValid (init_fields c size sflags align limits)
unfolding init_fields setup_color_param
init_fields-IsValid c size sflags align limits pos low room =
    let c0 : Cache = record c { obj_size = size; align = if align == 0 then 8 else align } in
    let l = setup_color_param-IsLaid c0 pos room (aligned_size-lt c0 align refl low) in
    record {
      laid = record {
        sized = l.sized;
        room = l.room;
        wide = l.wide;
        bounded = l.bounded;
        no_wrap = l.no_wrap;
        whole = l.whole;
        fits = l.fits;
        colors = l.colors;
      };
      stands = λ s. record {
        at_most_once = omega arith;
        partial_ok = λ p. absurd (omega arith);
        full_ok = λ p. absurd (omega arith);
        free_ok = λ p. absurd (omega arith);
        good = λ p. absurd (omega arith);
      };
    }

-- Making a cache of objects that are not empty, whose size and alignment together are below 2^63, where a slab of the
-- size that is computed has room for an object, fails no assertion, and answers 0, or -EBUSY for a name that is taken.
-- The cache that is made is in order: a slab is of whole pages, at most as many as the largest block has, and has room
-- for its own data and all objects at each offset.
pub kmem_cache_init-IsValid :
    (taken : Bool) (c : Cache) (size sflags align limits : ℕ)
    → 0 < size
    → size + align < 2 ^ 63
    → 0 < (init_fields c size sflags align limits).objs_per_slab
    → (freed : Bool) × (kmem_cache_init taken c size sflags align limits
        ≡ done (if taken then ebusy else ok, freed, init_fields c size sflags align limits))
      × IsValid (init_fields c size sflags align limits)
unfolding kmem_cache_init
kmem_cache_init-IsValid taken c size sflags align limits pos low room =
    let c1 = init_fields c size sflags align limits in
    let e = lt→ltb 0 size pos in
    let rc : Rc = if taken then ebusy else ok in
    (
      not (is_ok rc) && not (test_bit c1.sflags predefined_bit),
      rw e refl,
      init_fields-IsValid c size sflags align limits pos low room,
    )
