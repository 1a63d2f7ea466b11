-- ===== src/Slab/Api.antt =====
-- page/page-kmcache.c: making a cache, giving back its free slabs, and its end.
use yatos.Prelude.{
  ℕ, zero, suc, some, ◌+◌, ◌-◌, ◌/◌, ◌%◌, ◌^◌, Bool, true, false, not, ◌&&◌, ltb, ◌==◌,
  if◌then◌else◌, List, [], ◌∷◌, ◌++◌, Option, none, Exec, done, ◌>>=◌, ◌>>◌, kassert, Rc, ok, ebusy,
  is_ok,
}
use Prim.Native.Nat.{bit_or}
use yatos.Bits.{test_bit, set_bit}
use yatos.Vm.Space.{page_size}
use yatos.Slab.Sizes.{Cache, kmem_is_off_slab, calc_slab_param, setup_color_param}
use yatos.Slab.Objects.{name_pages}

abbrev pub km_default_limit : ℕ
km_default_limit = 10

-- the bits of KM_SLAB_OFF_SLAB, KM_SLAB_PREDEFINED_CACHE and KM_STATE_DELAY_DESTROY
abbrev pub off_slab_bit : ℕ
off_slab_bit = 0

abbrev pub predefined_bit : ℕ
predefined_bit = 1

abbrev pub delay_destroy_bit : ℕ
delay_destroy_bit = 0

-- add_kmem_cache_into_db: `taken` says whether a cache of the name is in the database already.
abbrev pub add_kmem_cache_into_db : Bool → Rc
add_kmem_cache_into_db taken = if taken then ebusy else ok

-- What kmem_cache_init writes. Under its name the database has a cache after it, the new one or the one before it; KM_ALIGN_HW and KM_LIMIT_DEFAULT are 0, and KM_SLAB_ON_SLAB has no bit
unfoldable pub init_fields : Cache → ℕ → ℕ → ℕ → ℕ → Cache
unfolding calc_slab_param setup_color_param
init_fields c size sflags align limits =
    let c0 = record c { obj_size = size; align = if align == 0 then 8 else align } in
    let c1 = setup_color_param (calc_slab_param c0) in
    record c1 {
      sflags = bit_or (if kmem_is_off_slab c1 then 0 else 2 ^ off_slab_bit) sflags;
      partial = [];
      full = [];
      free = [];
      slab_count = 0;
      usage_count = 0;
      state = 0;
      registered = true;
      limits = if limits == 0 then km_default_limit else limits;
    }

-- The Boolean says whether the memory of the cache was freed.
unfoldable pub kmem_cache_init : Bool → Cache → ℕ → ℕ → ℕ → ℕ → Exec (Rc × Bool × Cache)
unfolding init_fields test_bit
kmem_cache_init taken c size sflags align limits =
    kassert (ltb 0 size)
    >> (let c1 = init_fields c size sflags align limits in
        let rc = add_kmem_cache_into_db taken in
        done (rc, not (is_ok rc) && not (test_bit c1.sflags predefined_bit), c1))

-- `fresh` is the memory that kmalloc gives. The arguments stand as in the code.
unfoldable pub kmem_cache_create : Bool → Cache → ℕ → ℕ → ℕ → Exec (Rc × Bool × Cache)
unfolding kmem_cache_init
kmem_cache_create taken fresh size align limits = kmem_cache_init taken fresh size align limits 0

-- The loop of kmem_cache_reap, over the slabs of the queue of the free ones
unfoldable pub reap_loop : Bool → List ℕ → Cache → Exec Cache
unfolding name_pages
reap_loop force [] c = done c
reap_loop force (s ∷ ss) c =
    let page = (c.slabs s).page in
    let c1 = record c {
      free = ss;
      slab_of =
          name_pages ((c.slab_size + (page_size - 1)) / page_size) c.slab_of (page / page_size)
            none;
      given_back = c.given_back ++ (page ∷ []);
      slab_count = c.slab_count - 1;
    } in
    let rest = reap_loop force ss c1 in
    if not force && ltb c.slab_count c.limits
    then done c
    else (kassert (ltb 0 c.slab_count) >> rest)

unfoldable pub kmem_cache_reap : Cache → Bool → Exec (Rc × Cache)
unfolding reap_loop
kmem_cache_reap c force = elim c.free [
  | [] ↦ done (ebusy, c)
  | s ∷ ss ↦ reap_loop force c.free c >>= λ c1. done (ok, c1)
]

abbrev pub is_empty : List ℕ → Bool
is_empty [] = true
is_empty (s ∷ ss) = false

-- The Boolean says whether the cache was freed. It is taken out of the database.
unfoldable pub kmem_cache_destroy : Cache → Exec (Bool × Cache)
unfolding kmem_cache_reap test_bit set_bit
kmem_cache_destroy c =
    if test_bit c.sflags predefined_bit
    then done (false, c)
    else if not (is_empty c.partial && is_empty c.full)
    then done (false, c)
    else (kassert c.registered
        >> (let c1 = record c { registered = false } in
            if c.usage_count == 0
            then (kmem_cache_reap c1 true >>= λ r. kassert (is_ok r.0) >> done (true, r.1))
            else done (false, record c1 { state = set_bit c1.state delay_destroy_bit })))

-- the part of get_kmem_cache behind the search
abbrev pub get_kmem_cache : Cache → Cache
get_kmem_cache c = record c { usage_count = (c.usage_count + 1) % 2 ^ 64 }

-- The Boolean says whether the cache was freed.
unfoldable pub put_kmem_cache : Cache → Exec (Bool × Cache)
unfolding test_bit
put_kmem_cache c =
    kassert (ltb 0 c.usage_count)
    >> (let c1 = record c { usage_count = c.usage_count - 1 } in
        if test_bit c.sflags predefined_bit
        then done (false, c1)
        else done ((c1.usage_count == 0) && test_bit c.state delay_destroy_bit, c1))

-- kmalloc-8 up to kmalloc-131072: find_kmalloc_ent, the place of the cache for objects of `siz` bytes
unfoldable pub find_from : ℕ → ℕ → ℕ → Option ℕ
find_from zero idx siz = none
find_from (suc rounds) idx siz =
    let rest = find_from rounds (idx + 1) siz in if ltb (2 ^ (idx + 3)) siz then rest else some idx

abbrev pub kmalloc_nr : ℕ
kmalloc_nr = 15

unfoldable pub find_kmalloc_ent : ℕ → Option ℕ
unfolding find_from
find_kmalloc_ent siz = find_from kmalloc_nr 0 siz
