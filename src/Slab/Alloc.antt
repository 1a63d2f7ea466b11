-- ===== src/Slab/Alloc.antt =====
-- page/page-kmcache.c: taking an object from a cache.
use yatos.Prelude.{
  ℕ, suc, ◌+◌, ◌*◌, ◌≤◌, ◌<◌, ◌≡◌, ◌≢◌, ◌⊎◌, refl, sym, ◌∙◌, inl, inr, arith, true, false, ◌==◌,
  ltb, if◌then◌else◌, Bool-cases, List, [], ◌∷◌, ◌++◌, Option, none, some, length, done,
}
use yatos.Buddy.{remove}
use yatos.Slab.Sizes.{
  Slab, Cache, slab_bytes, obj_head_bytes, kmem_calc_align_offset, calc_slab_data_size,
}
use yatos.Slab.Objects.{set_slab, del_slab, take_object, kmem_cache_alloc}
use yatos.Slab.Occurs.{occ, occ-append_self, occ-append_other, occ-remove_self, occ-remove_other}
use yatos.Slab.Valid.{queued, IsSlab, StandsIn, IsLaid, IsValid, IsFresh}
use yatos.Slab.Place.{in_full, placed-IsValid, set_slab-others, set_slab_self, IsLaid-queues}
use yatos.Slab.Pick.{list_cases, Picked, Same, pick_slab-Picks}

-- the cache after the object with the head `h` was taken off the slab
abbrev after_take : Cache → ℕ → List ℕ → Cache
after_take c s hs =
    let count = (c.slabs s).count + 1 in
    let c1 = set_slab c s (record (c.slabs s) { count = count; objects = hs }) in
    let c2 = del_slab c1 s in
    if count == c.objs_per_slab then record c2 { full = c2.full ++ (s ∷ []) } else c1

take_object-first :
    (c : Cache) (s h : ℕ) (hs : List ℕ)
    → (c.slabs s).count < c.objs_per_slab
    → (c.slabs s).objects ≡ h ∷ hs
    → take_object c s
      ≡ done (some (h + obj_head_bytes + kmem_calc_align_offset c), after_take c s hs)
unfolding take_object
take_object-first c s h hs lt e =
    let room : ltb (c.slabs s).count c.objs_per_slab ≡ true = ground (arith, lt) in
    rw (room, e) refl

-- The cache with the slab set to what the operation makes of it is in order, where the others are and the slab may stay
-- on the queue of those in part used.
pub stays-IsValid :
    (c : Cache) (s : ℕ) (x : Slab)
    → IsLaid c
    → ((t : ℕ) → t ≢ s → StandsIn c 1 t)
    → occ s c.partial ≡ 1
    → queued c s ≤ 1
    → (1 ≤ x.count) × (x.count < c.objs_per_slab)
    → IsSlab c.objs_per_slab (calc_slab_data_size c) c.slab_size c.slab_of s x
    → IsValid (set_slab c s x)
stays-IsValid c s x l others here once suits g = record {
  laid = IsLaid-queues c c.partial c.full c.free (set_slab c s x).slabs l;
  stands = λ t. elim (Bool-cases (t == s)) [
    | inl e ↦
        let same : t ≡ s = ground (arith, e) in
        rw (same, set_slab_self c s x)
          (record {
            at_most_once = once;
            partial_ok = λ pos. suits;
            full_ok = λ pos. absurd (omega (arith, here, once));
            free_ok = λ pos. absurd (omega (arith, here, once));
            good = λ pos. g;
          })
    | inr e ↦
        let other : t ≢ s = ground (arith, e) in set_slab-others c s t x other (others t other)
  ];
}

taken-IsSlab :
    {n size bytes : ℕ} {slab_of : ℕ → Option ℕ} (s : ℕ) (x : Slab) (h : ℕ) (hs : List ℕ)
    → x.objects ≡ h ∷ hs
    → IsSlab n size bytes slab_of s x
    → IsSlab n size bytes slab_of s (record x { count = x.count + 1; objects = hs })
taken-IsSlab s x h hs e g = record {
  balance =
      let b = g.balance in
      let size : length x.objects ≡ suc (length hs) = rw e refl in omega (arith, b, size);
  once = λ k. let some_more = more k in let o = g.once k in omega (arith, some_more, o);
  heads = λ k pos. let some_more = more k in g.heads k (omega (arith, some_more, pos));
  inside = g.inside;
  owned = g.owned;
}
  where
    more : (k : ℕ) → occ k hs ≤ occ k x.objects
    more k = rw e (ground arith)

Picked-others : (c : Cache) (s : ℕ) → Picked c s → (t : ℕ) → t ≢ s → StandsIn c 1 t
Picked-others c s p t h =
    let e : (t == s) ≡ false = ground (arith, h) in let st = p.stands t in rw e at st

Picked-self : (c : Cache) (s : ℕ) → Picked c s → StandsIn c 0 s
Picked-self c s p = let e : (s == s) ≡ true = ground arith in let st = p.stands s in rw e at st

after_take-IsValid :
    (c : Cache) (s h : ℕ) (hs : List ℕ)
    → Picked c s
    → (c.slabs s).objects ≡ h ∷ hs
    → IsValid (after_take c s hs)
after_take-IsValid c s h hs p e =
    let st = Picked-self c s p in
    let x : Slab = record (c.slabs s) { count = (c.slabs s).count + 1; objects = hs } in
    let g = taken-IsSlab s (c.slabs s) h hs e (st.good (omega (arith, p.here))) in
    let set_back = set_slab_self c s x in
    let room = st.partial_ok (omega (arith, p.here)) in
    elim (Bool-cases ((c.slabs s).count + 1 == c.objs_per_slab)) [
      | inl y ↦
          let suits : x.count ≡ c.objs_per_slab = ground (arith, y) in
          let c1 = set_slab c s x in
          let l1 = IsLaid-queues c c.partial c.full c.free c1.slabs p.laid in
          let others : (t : ℕ) → t ≢ s → StandsIn c1 1 t =
            λ t o. set_slab-others c s t x o (Picked-others c s p t o) in
          rw y (placed-IsValid c1 s in_full l1 others (rw set_back suits) (rw set_back g))
      | inr y ↦
          let below : x.count < c.objs_per_slab = ground (arith, y, room) in
          rw y (
            stays-IsValid c s x p.laid (Picked-others c s p) p.here st.at_most_once
              (omega arith, below) g)
    ]

-- What it means that the object with the head `h`, of the slab `s`, is taken: the cache is in order; the object was free
-- on a slab of the cache, or the slab is new; it is one of the slab's own, and free no more, while the other free
-- objects of the slab and all other slabs stay as they were, also on how many queues those stand.
pub record Takes (c c' : Cache) (s h : ℕ) : Type 0 where
  pub valid : IsValid c'
  pub was_free : ((0 < queued c s) × (occ h (c.slabs s).objects ≡ 1)) ⊎ (queued c s ≡ 0)
  pub its_own : (j : ℕ) × (j < c'.objs_per_slab) × (h ≡ s + slab_bytes + j * calc_slab_data_size c')
  pub taken : occ h (c'.slabs s).objects ≡ 0
  pub rest_free :
      ((k : ℕ) → k ≢ h → occ k (c'.slabs s).objects ≡ occ k (c.slabs s).objects) ⊎ (queued c s ≡ 0)
  pub others : (t : ℕ) → t ≢ s → (c'.slabs t ≡ c.slabs t) × (queued c' t ≡ queued c t)
  pub in_use : (0 < (c'.slabs s).count) × (queued c' s ≡ 1)

after_take-slabs :
    (c : Cache) (s : ℕ) (hs : List ℕ) (t : ℕ)
    → (after_take c s hs).slabs t
      ≡ (set_slab c s (record (c.slabs s) { count = (c.slabs s).count + 1; objects = hs })).slabs t
after_take-slabs c s hs t = elim (Bool-cases ((c.slabs s).count + 1 == c.objs_per_slab)) [
  | inl y ↦ rw y refl
  | inr y ↦ rw y refl
]

after_take-queued :
    (c : Cache) (s : ℕ) (hs : List ℕ) → Picked c s → queued (after_take c s hs) s ≡ 1
after_take-queued c s hs p = elim (Bool-cases ((c.slabs s).count + 1 == c.objs_per_slab)) [
  | inl y ↦
      let gone_p = occ-remove_self s c.partial in
      let gone_f = occ-remove_self s c.full in
      let gone_e = occ-remove_self s c.free in
      let here = occ-append_self s (remove s c.full) in
      rw y (omega (arith, gone_p, gone_f, gone_e, here))
  | inr y ↦ let once = (Picked-self c s p).at_most_once in rw y (omega (arith, p.here, once))
]

after_take-queued_other :
    (c : Cache) (s : ℕ) (hs : List ℕ) (t : ℕ) → t ≢ s → queued (after_take c s hs) t ≡ queued c t
after_take-queued_other c s hs t o = elim (Bool-cases ((c.slabs s).count + 1 == c.objs_per_slab)) [
  | inl y ↦
      let p = occ-remove_other s t c.partial o in
      let f = occ-remove_other s t c.full o in
      let e = occ-remove_other s t c.free o in
      let here = occ-append_other s t (remove s c.full) o in rw y (omega (arith, p, f, e, here))
  | inr y ↦ rw y refl
]

after_take-sizes :
    (c : Cache) (s : ℕ) (hs : List ℕ)
    → ((after_take c s hs).objs_per_slab ≡ c.objs_per_slab)
      × (calc_slab_data_size (after_take c s hs) ≡ calc_slab_data_size c)
after_take-sizes c s hs = elim (Bool-cases ((c.slabs s).count + 1 == c.objs_per_slab)) [
  | inl y ↦ rw y (refl, refl)
  | inr y ↦ rw y (refl, refl)
]

after_take-Takes :
    (c c1 : Cache) (s h : ℕ) (hs : List ℕ)
    → Picked c1 s
    → Same c c1 s
    → (c1.slabs s).objects ≡ h ∷ hs
    → Takes c (after_take c1 s hs) s h
after_take-Takes c c1 s h hs p same e =
    let x : Slab = record (c1.slabs s) { count = (c1.slabs s).count + 1; objects = hs } in
    let now : (after_take c1 s hs).slabs s ≡ x =
      after_take-slabs c1 s hs s ∙ set_slab_self c1 s x in
    let st = Picked-self c1 s p in
    let g = st.good (omega (arith, p.here)) in
    let self : (h == h) ≡ true = ground arith in
    let count : occ h (c1.slabs s).objects ≡ suc (occ h hs) = rw (e, self) refl in
    let once = g.once h in
    let own = g.heads h (omega (arith, count)) in
    let sizes = after_take-sizes c1 s hs in
    record {
      valid = after_take-IsValid c1 s h hs p e;
      was_free = elim same.old_or_new [
        | inl (pos, old) ↦ inl (pos, rw (sym old) (omega (arith, count, once)))
        | inr new ↦ inr new
      ];
      its_own = rw (sizes.0, sizes.1) own;
      taken = rw now (omega (arith, count, once));
      rest_free = elim same.old_or_new [
        | inl (pos, old) ↦ inl (λ k o.
            let apart : (h == k) ≡ false = ground (arith, o) in
            let rest : occ k (c1.slabs s).objects ≡ occ k hs = rw (e, apart) refl in
            rw (now, sym old) (sym rest))
        | inr new ↦ inr new
      ];
      others = λ t o.
          let apart : (t == s) ≡ false = ground (arith, o) in
          (
            after_take-slabs c1 s hs t ∙ rw apart (same.others t o),
            after_take-queued_other c1 s hs t o ∙ same.others_queued t o,
          );
      in_use = (rw now (omega arith), after_take-queued c1 s hs p);
    }

objects-some :
    (c : Cache) (s : ℕ) → Picked c s → (h : ℕ) × (hs : List ℕ) × ((c.slabs s).objects ≡ h ∷ hs)
objects-some c s p =
    let st = Picked-self c s p in
    let g = (st.good (omega (arith, p.here))).balance in
    let room = st.partial_ok (omega (arith, p.here)) in
    elim (list_cases (c.slabs s).objects) [
      | inl e ↦
          let none_left : length (c.slabs s).objects ≡ 0 = rw e refl in
          absurd (omega (arith, g, room, none_left))
      | inr r ↦ r
    ]

-- Taking an object from a cache in order, where the page allocator has nothing or gives a block of whole pages whose
-- frames name no slab: no assertion fails; either there is no slab with a free object and no block, and nothing
-- changes, or an object that was free, or is of a new slab, is taken, and its address is behind its head.
pub kmem_cache_alloc-Takes :
    (memory : Option ℕ) (c : Cache)
    → IsValid c
    → IsFresh c memory
    → ((kmem_cache_alloc memory c ≡ done (none, c))
        × (c.partial ≡ [])
        × (c.free ≡ [])
        × (memory ≡ none))
      ⊎ ((s h : ℕ) × (c' : Cache) × (kmem_cache_alloc memory c
            ≡ done (some (h + obj_head_bytes + kmem_calc_align_offset c), c'))
          × Takes c c' s h)
unfolding kmem_cache_alloc
kmem_cache_alloc-Takes memory c v fresh = elim (pick_slab-Picks memory c v fresh) [
  | inl (run, e, f, m) ↦ inl (rw run refl, e, f, m)
  | inr (s, c1, run, p, same) ↦
      let (h, hs, e) = objects-some c1 s p in
      let room = (Picked-self c1 s p).partial_ok (omega (arith, p.here)) in
      let taken = take_object-first c1 s h hs room.1 e in
      inr (
        s,
        h,
        after_take c1 s hs,
        rw (run, taken, same.offset_kept) refl,
        after_take-Takes c c1 s h hs p same e,
      )
]
