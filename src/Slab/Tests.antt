-- ===== src/Slab/Tests.antt =====
-- Runs of a cache of objects on concrete sizes, and witnesses.
use yatos.Prelude.{
  ℕ, ◌+◌, ◌<◌, ◌≡◌, ◌⊎◌, refl, arith, Bool, false, [], Option, none, some, Exec, done, stop, Rc, ok,
}
use yatos.Bits.{test_bit}
use yatos.Slab.Sizes.{
  Slab, Cache, obj_head_bytes, kmem_calc_align_offset, order_loop, calc_page_order, off_slab_loop,
  calc_off_slab_size, calc_slab_param, setup_color_param, update_color_offset,
}
use yatos.Slab.Objects.{
  name_pages, kmem_cache_grow, pick_slab, take_object, kmem_cache_alloc, kmem_cache_free,
}
use yatos.Slab.Api.{
  init_fields, kmem_cache_init, kmem_cache_create, kmem_cache_reap, kmem_cache_destroy,
}
use yatos.Slab.Valid.{IsValid, IsFresh}
use yatos.Slab.Layout.{kmem_cache_init-IsValid}
use yatos.Slab.Alloc.{Takes, kmem_cache_alloc-Takes}
use yatos.Slab.Put.{IsInUse}
use yatos.Slab.Free.{Gives, kmem_cache_alloc-IsInUse, kmem_cache_free-Gives}

abbrev no_slab : Slab
no_slab = record { page = 0; color_offset = 0; count = 0; objects = [] }

-- memory before kmem_cache_init
abbrev raw : Cache
raw = record {
  color_num = 0;
  obj_size = 0;
  slab_size = 0;
  objs_per_slab = 0;
  align = 0;
  color_next = 0;
  sflags = 0;
  limits = 0;
  slab_count = 0;
  usage_count = 0;
  state = 0;
  registered = false;
  partial = [];
  full = [];
  free = [];
  slabs = λ s. no_slab;
  slab_of = λ n. none;
  given_back = [];
}

-- kmalloc-1024
abbrev kmalloc_1024 : Cache
kmalloc_1024 = init_fields raw 1024 2 0 0

room : 0 < kmalloc_1024.objs_per_slab
unfolding init_fields setup_color_param calc_slab_param calc_off_slab_size calc_page_order
    order_loop off_slab_loop test_bit
room = omega arith

kmem_cache_init-IsValid_example :
    (freed : Bool) × (kmem_cache_init false raw 1024 2 0 0 ≡ done (ok, freed, kmalloc_1024))
    × IsValid kmalloc_1024
kmem_cache_init-IsValid_example =
    kmem_cache_init-IsValid false raw 1024 2 0 0 (omega arith) (omega arith) room

kmalloc_1024-IsValid : IsValid kmalloc_1024
kmalloc_1024-IsValid =
    (kmem_cache_init-IsValid false raw 1024 2 0 0 (omega arith) (omega arith) room).2

abbrev block : Option ℕ
block = some 8388608

block-IsFresh : IsFresh kmalloc_1024 block
unfolding init_fields setup_color_param calc_slab_param
block-IsFresh = (refl, omega arith, λ a lo hi. refl)

kmem_cache_alloc-Takes_example :
    ((kmem_cache_alloc block kmalloc_1024 ≡ done (none, kmalloc_1024))
      × (kmalloc_1024.partial ≡ [])
      × (kmalloc_1024.free ≡ [])
      × (block ≡ none))
    ⊎ ((s h : ℕ) × (c' : Cache) × (kmem_cache_alloc block kmalloc_1024
          ≡ done (some (h + obj_head_bytes + kmem_calc_align_offset kmalloc_1024), c'))
        × Takes kmalloc_1024 c' s h)
kmem_cache_alloc-Takes_example =
    kmem_cache_alloc-Takes block kmalloc_1024 kmalloc_1024-IsValid block-IsFresh

abbrev cache_of : Exec (Option ℕ × Cache) → Cache
cache_of (done (obj, c)) = c
cache_of stop = raw

-- the cache that has given out its first object
abbrev used_cache : Cache
used_cache = cache_of (kmem_cache_alloc block kmalloc_1024)

first_object : kmem_cache_alloc block kmalloc_1024 ≡ done (some 8388872, used_cache)
unfolding kmem_cache_alloc pick_slab take_object kmem_cache_grow name_pages update_color_offset
    init_fields setup_color_param calc_slab_param calc_off_slab_size calc_page_order order_loop
    off_slab_loop test_bit
first_object = refl

first_used :
    (s h : ℕ) × (8388872 ≡ h + obj_head_bytes + kmem_calc_align_offset kmalloc_1024)
    × IsValid used_cache
    × IsInUse used_cache s h
first_used =
    kmem_cache_alloc-IsInUse block kmalloc_1024 8388872 used_cache kmalloc_1024-IsValid
      block-IsFresh first_object

kmem_cache_free-Gives_example :
    (c' : Cache) × (kmem_cache_free used_cache
        (first_used.1 + obj_head_bytes + kmem_calc_align_offset used_cache)
      ≡ done c')
    × Gives used_cache c' first_used.0 first_used.1
kmem_cache_free-Gives_example =
    kmem_cache_free-Gives used_cache first_used.0 first_used.1 first_used.3 first_used.4

-- the sizes of a cache of 8176 bytes aligned to 16: a slab has no room for an object
no_room : (calc_slab_param (record raw { obj_size = 8176; align = 16 })).objs_per_slab ≡ 0
unfolding calc_slab_param calc_off_slab_size calc_page_order order_loop off_slab_loop test_bit
no_room = refl

abbrev fields_of : Exec (Rc × Bool × Cache) → Option (ℕ × ℕ × ℕ × ℕ)
fields_of (done (rc, freed, c)) = some (c.obj_size, c.align, c.sflags, c.limits)
fields_of stop = none

-- asked for an alignment of 8 and a limit of 5, kmem_cache_create takes 8 as flags and 5 as the alignment
create_arguments : fields_of (kmem_cache_create false raw 64 8 5) ≡ some (64, 5, 9, 10)
unfolding kmem_cache_create kmem_cache_init init_fields setup_color_param calc_slab_param test_bit
create_arguments = refl

-- a cache that never had a slab cannot be destroyed
destroy_empty : kmem_cache_destroy (record raw { obj_size = 64; align = 8 }) ≡ stop
unfolding kmem_cache_destroy kmem_cache_reap test_bit
destroy_empty = refl
