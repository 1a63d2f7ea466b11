-- ===== src/Slab/Valid.antt =====
-- page/page-kmcache.c: the invariant of a cache.
use yatos.Prelude.{
  arith, ℕ, ◌+◌, ◌-◌, ◌*◌, ◌/◌, ◌%◌, ◌^◌, ◌≤◌, ◌<◌, ◌≡◌, ◌⊎◌, Option, none, some, length, true,
}
use yatos.Vm.Space.{page_size}
use yatos.Buddy.{max_order}
use yatos.Slab.Sizes.{
  Slab, Cache, slab_bytes, obj_head_bytes, kmem_calc_align_offset, calc_slab_data_size,
  default_l1_cache_byte,
}
use yatos.Slab.Occurs.{occ}

-- How often the slab is on the three queues.
abbrev pub queued : Cache → ℕ → ℕ
queued c s = occ s c.partial + occ s c.full + occ s c.free

-- The pages of a slab that holds `n` objects of `size` bytes, in `bytes` bytes of memory: the frames of its pages name
-- it, its objects fit in, and its free objects are different ones of its own.
pub record IsSlab (n size bytes : ℕ) (slab_of : ℕ → Option ℕ) (s : ℕ) (x : Slab) : Type 0 where
  pub balance : x.count + length x.objects ≡ n
  pub once : (h : ℕ) → occ h x.objects ≤ 1
  pub heads : (h : ℕ) → 0 < occ h x.objects → (j : ℕ) × (j < n) × (h ≡ s + slab_bytes + j * size)
  pub inside : (x.page ≤ s) × (s + slab_bytes + n * size ≤ x.page + bytes)
  pub owned : (a : ℕ) → x.page ≤ a → a < x.page + bytes → slab_of (a / page_size) ≡ some s

-- Whether the slab `s` stands on the queue that its count asks for, if on any: on `p`, `f` and `e` is how often it
-- stands on the queue of slabs in part used, full and free, and `low` is the least count of one in part used.
pub record Stands (low n size bytes : ℕ) (slab_of : ℕ → Option ℕ) (s : ℕ) (x : Slab) (p f e : ℕ)
    : Type 0 where
  pub at_most_once : p + f + e ≤ 1
  pub partial_ok : 0 < p → (low ≤ x.count) × (x.count < n)
  pub full_ok : 0 < f → x.count ≡ n
  pub free_ok : 0 < e → x.count ≡ 0
  pub good : 0 < p + f + e → IsSlab n size bytes slab_of s x

abbrev pub StandsIn : Cache → ℕ → ℕ → Type 0
StandsIn c low s =
    Stands low c.objs_per_slab (calc_slab_data_size c) c.slab_size c.slab_of s (c.slabs s)
      (occ s c.partial) (occ s c.full) (occ s c.free)

-- The sizes fit: a slab has room for its objects at each of its offsets, in whole pages that the largest block has, and
-- the size of an object with its head and the bytes between does not wrap.
pub record IsLaid (c : Cache) : Type 0 where
  pub sized : 0 < c.obj_size
  pub room : 0 < c.objs_per_slab
  pub wide : c.objs_per_slab < 2 ^ 64
  pub bounded : c.slab_size ≤ page_size * 2 ^ (max_order - 1)
  pub no_wrap : obj_head_bytes + kmem_calc_align_offset c + c.obj_size < 2 ^ 64
  pub whole : c.slab_size % page_size ≡ 0
  pub fits : slab_bytes + c.objs_per_slab * calc_slab_data_size c ≤ c.slab_size
  pub colors :
      (c.color_num ≡ 0)
      ⊎ ((c.color_next < c.color_num)
          × ((c.color_num - 1) * default_l1_cache_byte
                + slab_bytes
                + c.objs_per_slab * calc_slab_data_size c
              ≤ c.slab_size))

pub record IsValid (c : Cache) : Type 0 where
  pub laid : IsLaid c
  pub stands : (s : ℕ) → StandsIn c 1 s

pub data_size-eq :
    (c : Cache)
    → IsLaid c
    → calc_slab_data_size c ≡ obj_head_bytes + kmem_calc_align_offset c + c.obj_size
data_size-eq c l = let low = l.no_wrap in omega (arith, low)

-- The answer of the page allocator: none, or a block of whole pages whose frames name no slab, in which case the
-- cache has to be in the database.
abbrev pub IsFresh : Cache → Option ℕ → Type 0
IsFresh c none = Unit {0}
IsFresh c (some block) =
    (c.registered ≡ true)
    × (block % page_size ≡ 0)
    × ((a : ℕ) → block ≤ a → a < block + c.slab_size → c.slab_of (a / page_size) ≡ none)
