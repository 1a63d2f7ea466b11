-- ===== src/Slab/Grow.antt =====
-- page/page-kmcache.c: a new slab of a cache.
use yatos.Prelude.{
  ℕ, ◌+◌, ◌*◌, ◌/◌, ◌%◌, ◌^◌, ◌≤◌, ◌<◌, ◌≡◌, ◌≢◌, ◌⊎◌, refl, sym, ◌∙◌, inl, inr, arith, true, ◌==◌,
  ltb, Bool-cases, [], ◌∷◌, ◌++◌, some, done, ok,
}
use yatos.Vm.Space.{page_size}
use yatos.Slab.Sizes.{Slab, Cache, slab_bytes, calc_slab_data_size}
use yatos.Slab.Objects.{set_slab, new_slab, name_pages, kmem_cache_grow}
use yatos.Slab.Occurs.{occ-append_self, occ-append_other}
use yatos.Slab.Valid.{queued, IsSlab, StandsIn, IsLaid, IsValid, IsFresh, data_size-eq}
use yatos.Slab.Room.{
  name_pages-outside, name_pages-inside, update_color_offset-room, new_slab-IsSlab,
}

-- the cache with a new slab at the offset
abbrev pub grown : Cache → ℕ → ℕ → ℕ → Cache
grown c block offset next =
    let s = block + offset in
    let c2 = set_slab (record c { color_next = next }) s (new_slab c block offset) in
    record c2 {
      free = c2.free ++ (s ∷ []);
      slab_count = (c2.slab_count + 1) % 2 ^ 64;
      slab_of = name_pages (c2.slab_size / page_size) c2.slab_of (block / page_size) (some s);
    }

fresh-queued :
    (c : Cache) (block offset : ℕ)
    → IsValid c
    → IsFresh c (some block)
    → offset < c.slab_size
    → queued c (block + offset) ≡ 0
fresh-queued c block offset v fresh lt = elim (Bool-cases (queued c (block + offset) == 0)) [
  | inl e ↦ ground (arith, e)
  | inr e ↦
      let known = (v.stands (block + offset)).good (ground (arith, e)) in
      let its =
        known.owned (block + offset) known.inside.0 (omega (arith, known.inside, v.laid.room)) in
      let others = fresh.2 (block + offset) (omega arith) (omega arith) in
      ground (arith, sym its ∙ others)
]

grown-named :
    (c : Cache) (block offset next : ℕ)
    → IsLaid c
    → block % page_size ≡ 0
    → (a : ℕ) → block ≤ a
    → a < block + c.slab_size
    → (grown c block offset next).slab_of (a / page_size) ≡ some (block + offset)
grown-named c block offset next l whole a lo hi =
    let bytes = l.whole in
    name_pages-inside (c.slab_size / page_size) c.slab_of (block / page_size)
      (some (block + offset)) (a / page_size) (omega arith) (omega (arith, bytes))

grown-others :
    (c : Cache) (block offset next : ℕ) (t : ℕ) (x : Slab)
    → IsLaid c
    → IsFresh c (some block)
    → IsSlab c.objs_per_slab (calc_slab_data_size c) c.slab_size c.slab_of t x
    → IsSlab c.objs_per_slab
        (calc_slab_data_size c)
        c.slab_size
        (grown c block offset next).slab_of
        t
        x
grown-others c block offset next t x l fresh g = record {
  balance = g.balance;
  once = g.once;
  heads = g.heads;
  inside = g.inside;
  owned = λ a lo hi.
      let its = g.owned a lo hi in
      let o : (a / page_size < block / page_size)
          ⊎ (block / page_size + c.slab_size / page_size ≤ a / page_size) =
        elim (Bool-cases (ltb a block)) [
          | inl e ↦ let lt : a < block = ground (arith, e) in inl (omega (arith, fresh.1))
          | inr e ↦ elim (Bool-cases (ltb a (block + c.slab_size))) [
            | inl e2 ↦
                let lo2 : block ≤ a = ground (arith, e) in
                let hi2 : a < block + c.slab_size = ground (arith, e2) in
                let others = fresh.2 a lo2 hi2 in ground (arith, sym its ∙ others)
            | inr e2 ↦
                let past : block + c.slab_size ≤ a = ground (arith, e2) in
                inr (omega (arith, fresh.1, l.whole))
          ]
        ] in
      name_pages-outside (c.slab_size / page_size) c.slab_of (block / page_size)
        (some (block + offset)) (a / page_size) o
      ∙ its;
}

grown-Stands :
    (c : Cache) (block offset next : ℕ) (t : ℕ)
    → IsValid c
    → IsFresh c (some block)
    → offset + slab_bytes + c.objs_per_slab * calc_slab_data_size c ≤ c.slab_size
    → StandsIn (grown c block offset next) 1 t
grown-Stands c block offset next t v fresh fits = elim (Bool-cases (t == block + offset)) [
  | inl e ↦
      let same : t ≡ block + offset = ground (arith, e) in
      let apart = fresh-queued c block offset v fresh (omega (arith, fits)) in
      let free_count = occ-append_self (block + offset) c.free in
      let new =
        new_slab-IsSlab c block offset (grown c block offset next).slab_of
          (let eq = data_size-eq c v.laid in omega (arith, eq)) fits
          (grown-named c block offset next v.laid fresh.1) in
      let self : (block + offset == block + offset) ≡ true = ground arith in
      rw same (
        rw (self, free_count)
          (record {
            at_most_once = omega (arith, apart);
            partial_ok = λ pos. absurd (omega (arith, apart));
            full_ok = λ pos. absurd (omega (arith, apart));
            free_ok = λ pos. refl;
            good = λ pos. new;
          }))
  | inr e ↦
      let other : t ≢ block + offset = ground (arith, e) in
      let free_count = occ-append_other (block + offset) t c.free other in
      let st = v.stands t in
      rw (e, free_count)
        (record {
          at_most_once = st.at_most_once;
          partial_ok = st.partial_ok;
          full_ok = st.full_ok;
          free_ok = st.free_ok;
          good = λ pos. grown-others c block offset next t (c.slabs t) v.laid fresh (st.good pos);
        })
]

-- A cache in order that is given a fresh block is in order again, with one more slab, at the end of the free ones.
pub kmem_cache_grow-IsValid :
    (c : Cache) (block : ℕ)
    → IsValid c
    → IsFresh c (some block)
    → (offset next : ℕ) × (kmem_cache_grow (some block) c ≡ done (ok, grown c block offset next))
      × IsValid (grown c block offset next)
      × (queued c (block + offset) ≡ 0)
unfolding kmem_cache_grow
kmem_cache_grow-IsValid c block v fresh =
    let (offset, next, e, fits, l) = update_color_offset-room c v.laid fresh.0 in
    let whole : (c.slab_size % page_size == 0) ≡ true = ground (arith, v.laid.whole) in
    (
      offset,
      next,
      rw (whole, e) refl,
      record {
        laid = record {
          sized = l.sized;
          room = l.room;
          wide = l.wide;
          bounded = l.bounded;
          no_wrap = l.no_wrap;
          whole = l.whole;
          fits = l.fits;
          colors = l.colors;
        };
        stands = λ t. grown-Stands c block offset next t v fresh fits;
      },
      fresh-queued c block offset v fresh (omega (arith, fits)),
    )
