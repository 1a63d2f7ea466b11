-- ===== src/Slab/Free.antt =====
-- page/page-kmcache.c: giving an object back to its cache.
use yatos.Prelude.{
  ℕ, suc, ◌+◌, ◌-◌, ◌*◌, ◌/◌, ◌≤◌, ◌<◌, ◌≡◌, ◌≢◌, refl, sym, ◌∙◌, inl, inr, arith, false, ◌==◌,
  Option, some, done,
}
use native.Mathlib.Nat.{mul-le-mul_right, suc-mul}
use yatos.Vm.Space.{page_size}
use yatos.Slab.Sizes.{
  Cache, slab_bytes, obj_head_bytes, kmem_calc_align_offset, calc_slab_data_size,
}
use yatos.Slab.Objects.{put_object, kmem_cache_free, kmem_cache_alloc}
use yatos.Slab.Occurs.{occ, occ-append_self, occ-append_other}
use yatos.Slab.Valid.{queued, IsLaid, IsValid, IsFresh, data_size-eq}
use yatos.Slab.Place.{set_slab_self, IsSlabIn}
use yatos.Slab.Alloc.{kmem_cache_alloc-Takes}
use yatos.Slab.Where.{put_object-queued, put_object-queued_other}
use yatos.Slab.Put.{given, put_object-slabs, put_object-slab_of, IsInUse, put_object-IsValid}

-- The bytes of the object lie in the pages of its slab, behind the slab's own data.
pub object-inside :
    (c : Cache) (s j : ℕ)
    → IsLaid c
    → IsSlabIn c s
    → j < c.objs_per_slab
    → let obj : ℕ =
        s + slab_bytes + j * calc_slab_data_size c + obj_head_bytes + kmem_calc_align_offset c in
      ((c.slabs s).page + slab_bytes ≤ obj) × (obj + c.obj_size ≤ (c.slabs s).page + c.slab_size)
object-inside c s j l g lt =
    let more : suc j * calc_slab_data_size c ≤ c.objs_per_slab * calc_slab_data_size c =
      mul-le-mul_right (calc_slab_data_size c) lt in
    let eq = data_size-eq c l in
    let next : suc j * calc_slab_data_size c ≡ j * calc_slab_data_size c + calc_slab_data_size c =
      suc-mul j (calc_slab_data_size c) in
    let fits = g.inside in (omega (arith, fits), omega (arith, fits, more, next, eq))

-- What it means that the object with the head `h`, of the slab `s`, is given back: the cache is in order, the object is
-- free, the slab stands on just one queue and has one object fewer in use, its other free objects and the other slabs
-- stay as they were, and so does how often those stand on a queue, and the slabs that the frames name.
pub record Gives (c c' : Cache) (s h : ℕ) : Type 0 where
  pub valid : IsValid c'
  pub freed : occ h (c'.slabs s).objects ≡ 1
  pub one_fewer : suc (c'.slabs s).count ≡ (c.slabs s).count
  pub rest_free : (k : ℕ) → k ≢ h → occ k (c'.slabs s).objects ≡ occ k (c.slabs s).objects
  pub others : (t : ℕ) → t ≢ s → (c'.slabs t ≡ c.slabs t) × (queued c' t ≡ queued c t)
  pub on_queue : queued c' s ≡ 1
  pub frames : c'.slab_of ≡ c.slab_of

put_object-Gives :
    (c : Cache) (s h : ℕ) → IsValid c → IsInUse c s h → Gives c (put_object c s h) s h
put_object-Gives c s h v u =
    let now : (put_object c s h).slabs s ≡ given (c.slabs s) h =
      put_object-slabs c s h s ∙ set_slab_self c s (given (c.slabs s) h) in
    let more = occ-append_self h (c.slabs s).objects in
    let away = u.not_free in
    let used = u.used in
    let wide = v.laid.wide in
    let b = ((v.stands s).good u.known).balance in
    record {
      valid = put_object-IsValid c s h v u;
      freed = rw (now, more) (omega (arith, away));
      one_fewer = rw now (omega (arith, used, wide, b));
      rest_free = λ k o. rw now (occ-append_other h k (c.slabs s).objects o);
      others = λ t o.
          let apart : (t == s) ≡ false = ground (arith, o) in
          (put_object-slabs c s h t ∙ rw apart refl, put_object-queued_other c s h t o);
      on_queue = put_object-queued c s h v u.known;
      frames = put_object-slab_of c s h;
    }

kmem_cache_free-found :
    (c : Cache) (obj s h : ℕ)
    → c.slab_of (obj / page_size) ≡ some s
    → obj - kmem_calc_align_offset c - obj_head_bytes ≡ h
    → kmem_cache_free c obj ≡ done (put_object c s h)
unfolding kmem_cache_free
kmem_cache_free-found c obj s h found back = rw (kmem_cache_free, found, back) refl

-- Giving back an object in use, by the address behind its head, to a cache in order: no assertion fails, the slab is
-- found from the page of the object, and the object is given back to it.
pub kmem_cache_free-Gives :
    (c : Cache) (s h : ℕ)
    → IsValid c
    → IsInUse c s h
    → (c' : Cache) × (kmem_cache_free c (h + obj_head_bytes + kmem_calc_align_offset c) ≡ done c')
      × Gives c c' s h
kmem_cache_free-Gives c s h v u =
    let (j, lt, at) = u.its_own in
    let g = (v.stands s).good u.known in
    let off = kmem_calc_align_offset c in
    let obj : ℕ = h + obj_head_bytes + off in
    let place = object-inside c s j v.laid g lt in
    let sized = v.laid.sized in
    let found : c.slab_of (obj / page_size) ≡ some s =
      g.owned obj (omega (arith, place, at)) (omega (arith, place, at, sized)) in
    let back : obj - kmem_calc_align_offset c - obj_head_bytes ≡ h = omega arith in
    (put_object c s h, kmem_cache_free-found c obj s h found back, put_object-Gives c s h v u)

-- An object that a cache has given out is in use.
pub kmem_cache_alloc-IsInUse :
    (memory : Option ℕ) (c : Cache) (obj : ℕ) (c' : Cache)
    → IsValid c
    → IsFresh c memory
    → kmem_cache_alloc memory c ≡ done (some obj, c')
    → (s h : ℕ) × (obj ≡ h + obj_head_bytes + kmem_calc_align_offset c)
      × IsValid c'
      × IsInUse c' s h
kmem_cache_alloc-IsInUse memory c obj c' v fresh run =
    elim (kmem_cache_alloc-Takes memory c v fresh) [
      | inl g ↦ let q = sym run ∙ g.0 in ground (arith, q)
      | inr (s, h, c1, ran, t) ↦
          let q = sym run ∙ ran in
          let same : c' ≡ c1 = ground (arith, q) in
          let place : obj ≡ h + obj_head_bytes + kmem_calc_align_offset c = ground (arith, q) in
          rw same (
            s,
            h,
            place,
            t.valid,
            record {
              known = let one = t.in_use.1 in omega (arith, one);
              used = t.in_use.0;
              not_free = t.taken;
              its_own = t.its_own;
            },
          )
    ]
