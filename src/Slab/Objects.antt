-- ===== src/Slab/Objects.antt =====
-- page/page-kmcache.c: the operations on a cache. Slabs and objects are known by their addresses, and the queues are
-- lists; the lists of free objects run through their heads.
use yatos.Prelude.{
  ℕ, zero, suc, ◌+◌, ◌-◌, ◌/◌, ◌%◌, ◌^◌, ltb, ◌==◌, if◌then◌else◌, List, [], ◌∷◌, ◌++◌, Option,
  none, some, Exec, done, stop, ◌>>=◌, ◌>>◌, kassert, Rc, ok, enomem,
}
use yatos.Buddy.{remove}
use yatos.Vm.Space.{page_size}
use yatos.Slab.Sizes.{
  Slab, Cache, slab_bytes, obj_head_bytes, kmem_calc_align_offset, calc_slab_data_size,
  update_color_offset,
}

-- list_del of the link of a slab, on whichever queue it stands
abbrev pub del_slab : Cache → ℕ → Cache
del_slab c s = record c {
  partial = remove s c.partial;
  full = remove s c.full;
  free = remove s c.free;
}

abbrev pub set_slab : Cache → ℕ → Slab → Cache
set_slab c s x = record c { slabs = λ t. if t == s then x else c.slabs t }

-- the heads of `n` objects of `size` bytes from the address `a` on
abbrev pub heads_from : ℕ → ℕ → ℕ → List ℕ
heads_from zero a size = []
heads_from (suc n) a size = a ∷ heads_from n (a + size) size

-- init_slab and init_object_heads
abbrev pub new_slab : Cache → ℕ → ℕ → Slab
new_slab c block offset = record {
  page = block;
  color_offset = offset;
  count = 0;
  objects = heads_from c.objs_per_slab (block + offset + slab_bytes) (calc_slab_data_size c);
}

-- The loop over the pages of a slab: their frames name it, or no slab any more.
unfoldable pub name_pages : ℕ → (ℕ → Option ℕ) → ℕ → Option ℕ → ℕ → Option ℕ
name_pages zero slab_of n s = slab_of
name_pages (suc rounds) slab_of n s =
    name_pages rounds (λ k. if k == n then s else slab_of k) (suc n) s

-- `memory` is the answer of alloc_buddy_pages. That the cache is in the database is asserted again in init_slab,
-- refer_object_head and init_object_heads, after update_color_offset has asserted it.
unfoldable pub kmem_cache_grow : Option ℕ → Cache → Exec (Rc × Cache)
unfolding update_color_offset name_pages
kmem_cache_grow none c = kassert (c.slab_size % page_size == 0) >> done (enomem, c)
kmem_cache_grow (some block) c =
    kassert (c.slab_size % page_size == 0) >> update_color_offset c >>= λ (offset, c1).
    let s = block + offset in
    let c2 = set_slab c1 s (new_slab c1 block offset) in
    done (
      ok,
      record c2 {
        free = c2.free ++ (s ∷ []);
        slab_count = (c2.slab_count + 1) % 2 ^ 64;
        slab_of = name_pages (c2.slab_size / page_size) c2.slab_of (block / page_size) (some s);
      },
    )

-- the first free slab is moved to the queue of those in part used
abbrev pub move_first : Cache → List ℕ → Exec (Option ℕ × Cache)
move_first c [] = stop
move_first c (s ∷ ss) = done (some s, record c { free = ss; partial = c.partial ++ (s ∷ []) })

abbrev pub after_grow : Rc × Cache → Exec (Option ℕ × Cache)
after_grow (ok, c) = move_first c c.free
after_grow (rc, c) = done (none, c)

-- a slab with a free object: the first of those in part used, else a free one, else a new one
unfoldable pub pick_slab : Option ℕ → Cache → List ℕ → List ℕ → Exec (Option ℕ × Cache)
unfolding kmem_cache_grow
pick_slab memory c (s ∷ ss) free = done (some s, c)
pick_slab memory c [] (s ∷ ss) = move_first c (s ∷ ss)
pick_slab memory c [] [] = kmem_cache_grow memory c >>= after_grow

-- the first free object of a slab is taken off
unfoldable pub take_object : Cache → ℕ → Exec (Option ℕ × Cache)
take_object c s = kassert (ltb (c.slabs s).count c.objs_per_slab) >> (elim (c.slabs s).objects [
  | [] ↦ stop
  | h ∷ hs ↦
      let count = (c.slabs s).count + 1 in
      let c1 = set_slab c s (record (c.slabs s) { count = count; objects = hs }) in
      let c2 = del_slab c1 s in
      let c3 = if count == c.objs_per_slab then record c2 { full = c2.full ++ (s ∷ []) } else c1 in
      done (some (h + obj_head_bytes + kmem_calc_align_offset c), c3)
])

-- The constructor works on the object alone.
unfoldable pub kmem_cache_alloc : Option ℕ → Cache → Exec (Option ℕ × Cache)
unfolding pick_slab take_object
kmem_cache_alloc memory c = pick_slab memory c c.partial c.free >>= λ r. elim r.0 [
  | none ↦ done (none, r.1)
  | some s ↦ take_object r.1 s
]

-- the part of kmem_cache_free behind the search of the slab
unfoldable pub put_object : Cache → ℕ → ℕ → Cache
put_object c s h =
    let x = c.slabs s in
    let count = (x.count + (2 ^ 64 - 1)) % 2 ^ 64 in
    let c1 = set_slab c s (record x { count = count; objects = x.objects ++ (h ∷ []) }) in
    let d1 = del_slab c1 s in
    let c2 =
      if x.count == c.objs_per_slab then record d1 { partial = d1.partial ++ (s ∷ []) } else c1 in
    let d2 = del_slab c2 s in if count == 0 then record d2 { free = d2.free ++ (s ∷ []) } else c2

-- The destructor works on the object alone.
unfoldable pub kmem_cache_free : Cache → ℕ → Exec Cache
kmem_cache_free c obj = elim (c.slab_of (obj / page_size)) [
  | none ↦ stop
  | some s ↦ done (put_object c s (obj - kmem_calc_align_offset c - obj_head_bytes))
]
