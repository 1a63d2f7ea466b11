-- ===== src/Slab/Put.antt =====
-- page/page-kmcache.c: an object comes back to its slab, and the slab to its queue.
use yatos.Prelude.{
  ℕ, ◌+◌, ◌-◌, ◌*◌, ◌%◌, ◌^◌, ◌≤◌, ◌<◌, ◌≡◌, ◌≢◌, ◌⊎◌, refl, ◌∙◌, inl, inr, arith, true, false,
  ◌==◌, Bool-cases, [], ◌∷◌, ◌++◌, Option, length-append,
}
use yatos.Slab.Sizes.{Slab, Cache, slab_bytes, calc_slab_data_size}
use yatos.Slab.Objects.{set_slab, put_object}
use yatos.Slab.Occurs.{occ, occ-append_self, occ-append_other}
use yatos.Slab.Valid.{queued, IsSlab, StandsIn, IsLaid, IsValid}
use yatos.Slab.Place.{
  in_part, in_free, placed, placed-IsValid, placed-IsLaid, placed-others, set_slab-others,
  set_slab_self, IsLaid-queues, IsSlabIn,
}
use yatos.Slab.Alloc.{stays-IsValid}

-- the slab with one object fewer in use
abbrev pub given : Slab → ℕ → Slab
given x h = record x { count = (x.count + (2 ^ 64 - 1)) % 2 ^ 64; objects = x.objects ++ (h ∷ []) }

given-IsSlab :
    {n size bytes : ℕ} {slab_of : ℕ → Option ℕ} (s : ℕ) (x : Slab) (h j : ℕ)
    → n < 2 ^ 64
    → 0 < x.count
    → occ h x.objects ≡ 0
    → j < n
    → h ≡ s + slab_bytes + j * size
    → IsSlab n size bytes slab_of s x
    → IsSlab n size bytes slab_of s (given x h)
given-IsSlab s x h j wide pos away lt at g = record {
  balance =
      let size = length-append x.objects (h ∷ []) in let b = g.balance in omega (arith, size, b);
  once = λ k. elim (Bool-cases (k == h)) [
    | inl e ↦
        let same : k ≡ h = ground (arith, e) in
        let more = occ-append_self h x.objects in rw (same, more) (omega (arith, away))
    | inr e ↦
        let other : k ≢ h = ground (arith, e) in
        rw (occ-append_other h k x.objects other) (g.once k)
  ];
  heads = λ k some_there. elim (Bool-cases (k == h)) [
    | inl e ↦ let same : k ≡ h = ground (arith, e) in (j, lt, same ∙ at)
    | inr e ↦
        let other : k ≢ h = ground (arith, e) in
        let there = rw (occ-append_other h k x.objects other) at some_there in g.heads k there
  ];
  inside = g.inside;
  owned = g.owned;
}

-- put_object by the queue on which the slab ends up
abbrev pub c1_of : Cache → ℕ → ℕ → Cache
c1_of c s h = set_slab c s (given (c.slabs s) h)

pub put_object-free :
    (c : Cache) (s h : ℕ)
    → (given (c.slabs s) h).count ≡ 0
    → (put_object c s h ≡ placed (c1_of c s h) s in_free)
      ⊎ (put_object c s h ≡ placed (placed (c1_of c s h) s in_part) s in_free)
unfolding put_object
put_object-free c s h z =
    let e : ((given (c.slabs s) h).count == 0) ≡ true = ground (arith, z) in
    elim (Bool-cases ((c.slabs s).count == c.objs_per_slab)) [
      | inl y ↦ inr (rw (e, y) refl)
      | inr y ↦ inl (rw (e, y) refl)
    ]

pub put_object-part :
    (c : Cache) (s h : ℕ)
    → (given (c.slabs s) h).count ≢ 0
    → (c.slabs s).count ≡ c.objs_per_slab
    → put_object c s h ≡ placed (c1_of c s h) s in_part
unfolding put_object
put_object-part c s h nz full =
    let e : ((given (c.slabs s) h).count == 0) ≡ false = ground (arith, nz) in
    let y : ((c.slabs s).count == c.objs_per_slab) ≡ true = ground (arith, full) in rw (e, y) refl

pub put_object-stays :
    (c : Cache) (s h : ℕ)
    → (given (c.slabs s) h).count ≢ 0
    → (c.slabs s).count ≢ c.objs_per_slab
    → put_object c s h ≡ c1_of c s h
unfolding put_object
put_object-stays c s h nz part =
    let e : ((given (c.slabs s) h).count == 0) ≡ false = ground (arith, nz) in
    let y : ((c.slabs s).count == c.objs_per_slab) ≡ false = ground (arith, part) in rw (e, y) refl

pub put_object-slabs : (c : Cache) (s h t : ℕ) → (put_object c s h).slabs t ≡ (c1_of c s h).slabs t
unfolding put_object
put_object-slabs c s h t = elim (Bool-cases ((c.slabs s).count == c.objs_per_slab)) [
  | inl y ↦ elim (Bool-cases ((given (c.slabs s) h).count == 0)) [
    | inl e ↦ rw (y, e) refl
    | inr e ↦ rw (y, e) refl
  ]
  | inr y ↦ elim (Bool-cases ((given (c.slabs s) h).count == 0)) [
    | inl e ↦ rw (y, e) refl
    | inr e ↦ rw (y, e) refl
  ]
]

pub put_object-slab_of : (c : Cache) (s h : ℕ) → (put_object c s h).slab_of ≡ c.slab_of
unfolding put_object
put_object-slab_of c s h = elim (Bool-cases ((c.slabs s).count == c.objs_per_slab)) [
  | inl y ↦ elim (Bool-cases ((given (c.slabs s) h).count == 0)) [
    | inl e ↦ rw (y, e) refl
    | inr e ↦ rw (y, e) refl
  ]
  | inr y ↦ elim (Bool-cases ((given (c.slabs s) h).count == 0)) [
    | inl e ↦ rw (y, e) refl
    | inr e ↦ rw (y, e) refl
  ]
]

-- The object with the head `h` is in use: its slab is on a queue and has objects in use, and the head is one of the
-- slab's own that is not free.
pub record IsInUse (c : Cache) (s h : ℕ) : Type 0 where
  pub known : 0 < queued c s
  pub used : 0 < (c.slabs s).count
  pub not_free : occ h (c.slabs s).objects ≡ 0
  pub its_own : (j : ℕ) × (j < c.objs_per_slab) × (h ≡ s + slab_bytes + j * calc_slab_data_size c)

given_in : (c : Cache) (s h : ℕ) → IsValid c → IsInUse c s h → IsSlabIn (c1_of c s h) s
given_in c s h v u =
    let (j, lt, at) = u.its_own in
    let g = (v.stands s).good u.known in
    rw (set_slab_self c s (given (c.slabs s) h))
      (given-IsSlab s (c.slabs s) h j v.laid.wide u.used u.not_free lt at g)

pub put_object-IsValid :
    (c : Cache) (s h : ℕ) → IsValid c → IsInUse c s h → IsValid (put_object c s h)
put_object-IsValid c s h v u =
    let st = v.stands s in
    let c1 = c1_of c s h in
    let x = given (c.slabs s) h in
    let self = set_slab_self c s x in
    let g1 : IsSlabIn c1 s = given_in c s h v u in
    let l1 : IsLaid c1 = IsLaid-queues c c.partial c.full c.free c1.slabs v.laid in
    let others : (t : ℕ) → t ≢ s → StandsIn c1 1 t =
      λ t o. set_slab-others c s t x o (v.stands t) in
    let b = (st.good u.known).balance in
    let wide = v.laid.wide in
    elim (Bool-cases (x.count == 0)) [
      | inl e ↦
          let z : x.count ≡ 0 = ground (arith, e) in
          elim (put_object-free c s h z) [
            | inl q ↦ rw q (placed-IsValid c1 s in_free l1 others (rw self z) g1)
            | inr q ↦
                let c2 = placed c1 s in_part in
                let l2 = placed-IsLaid c1 s in_part l1 in
                let others2 : (t : ℕ) → t ≢ s → StandsIn c2 1 t =
                  λ t o. placed-others c1 s t in_part o (others t o) in
                rw q (placed-IsValid c2 s in_free l2 others2 (rw self z) g1)
          ]
      | inr e ↦
          let nz : x.count ≢ 0 = ground (arith, e) in
          elim (Bool-cases ((c.slabs s).count == c.objs_per_slab)) [
            | inl y ↦
                let full : (c.slabs s).count ≡ c.objs_per_slab = ground (arith, y) in
                let suits : (1 ≤ x.count) × (x.count < c.objs_per_slab) =
                  (omega (arith, nz), omega (arith, u.used, wide, full)) in
                rw (put_object-part c s h nz full)
                  (placed-IsValid c1 s in_part l1 others (rw self suits) g1)
            | inr y ↦
                let part : (c.slabs s).count ≢ c.objs_per_slab = ground (arith, y) in
                let nf : occ s c.full ≡ 0 = elim (Bool-cases (occ s c.full == 0)) [
                  | inl i ↦ ground (arith, i)
                  | inr i ↦ absurd (part (st.full_ok (ground (arith, i))))
                ] in
                let ne : occ s c.free ≡ 0 = elim (Bool-cases (occ s c.free == 0)) [
                  | inl i ↦ ground (arith, i)
                  | inr i ↦
                      let no_count = st.free_ok (ground (arith, i)) in
                      let pos = u.used in absurd (omega (arith, no_count, pos))
                ] in
                let once = st.at_most_once in
                let here : occ s c.partial ≡ 1 =
                  let pos = u.known in omega (arith, once, nf, ne, pos) in
                let room = st.partial_ok (omega (arith, here)) in
                let used = u.used in
                let suits : (1 ≤ x.count) × (x.count < c.objs_per_slab) =
                  (omega (arith, nz), omega (arith, used, room, wide)) in
                let g = rw self at g1 in
                rw (put_object-stays c s h nz part)
                  (stays-IsValid c s x v.laid (λ t o. v.stands t) here once suits g)
          ]
    ]
