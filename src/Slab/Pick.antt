-- ===== src/Slab/Pick.antt =====
-- page/page-kmcache.c: the slab that an object is taken from.
use yatos.Prelude.{
  ℕ, suc, ◌+◌, ◌%◌, ◌<◌, ◌≡◌, ◌≢◌, ◌⊎◌, refl, sym, ap, ◌∙◌, inl, inr, arith, true, false, ◌==◌,
  if◌then◌else◌, Bool-cases, List, [], ◌∷◌, ◌++◌, Option, none, some, Exec, done, ◌>>=◌,
}
use yatos.Vm.Space.{page_size}
use yatos.Slab.Sizes.{Cache, kmem_calc_align_offset}
use yatos.Slab.Objects.{move_first, after_grow, kmem_cache_grow, pick_slab}
use yatos.Slab.Occurs.{occ, occ-append_self, occ-append_other}
use yatos.Slab.Valid.{queued, StandsIn, IsLaid, IsValid, IsFresh}
use yatos.Slab.Place.{IsLaid-queues}
use yatos.Slab.Grow.{grown, kmem_cache_grow-IsValid}

-- The slab stands on the queue of those in part used, where its count may be 0 as yet; all else is in order.
pub record Picked (c : Cache) (s : ℕ) : Type 0 where
  pub laid : IsLaid c
  pub here : occ s c.partial ≡ 1
  pub stands : (t : ℕ) → StandsIn c (if t == s then 0 else 1) t

pub list_cases : (l : List ℕ) → (l ≡ []) ⊎ ((s : ℕ) × (ss : List ℕ) × (l ≡ s ∷ ss))
list_cases [] = inl refl
list_cases (s ∷ ss) = inr (s, ss, refl)

first-Picked : (c : Cache) (s : ℕ) (ss : List ℕ) → IsValid c → c.partial ≡ s ∷ ss → Picked c s
first-Picked c s ss v e =
    let self : (s == s) ≡ true = ground arith in
    let at : occ s c.partial ≡ suc (occ s ss) = rw (e, self) refl in
    let once = (v.stands s).at_most_once in
    record {
      laid = v.laid;
      here = omega (arith, at, once);
      stands = λ t.
          let st = v.stands t in
          record {
            at_most_once = st.at_most_once;
            partial_ok = λ pos. let w = st.partial_ok pos in ground (arith, w);
            full_ok = st.full_ok;
            free_ok = st.free_ok;
            good = st.good;
          };
    }

moved-Stands :
    (c : Cache) (s : ℕ) (ss : List ℕ) (t : ℕ)
    → IsValid c
    → c.free ≡ s ∷ ss
    → StandsIn (record c { free = ss; partial = c.partial ++ (s ∷ []) }) (if t == s then 0 else 1) t
moved-Stands c s ss t v e =
    let st = v.stands t in
    elim (Bool-cases (t == s)) [
      | inl y ↦
          let same : t ≡ s = ground (arith, y) in
          let self : (s == s) ≡ true = ground arith in
          let at : occ s c.free ≡ suc (occ s ss) = rw (e, self) refl in
          let st2 = v.stands s in
          let app = occ-append_self s c.partial in
          rw same (
            rw (self, app)
              (record {
                at_most_once = let once = st2.at_most_once in omega (arith, at, once);
                partial_ok = λ pos.
                    let zero_count = st2.free_ok (omega (arith, at)) in
                    (omega arith, omega (arith, zero_count, v.laid.room));
                full_ok = λ pos. let once = st2.at_most_once in absurd (omega (arith, at, once));
                free_ok = λ pos. let once = st2.at_most_once in absurd (omega (arith, at, once));
                good = λ pos. st2.good (omega (arith, at));
              }))
      | inr y ↦
          let other : t ≢ s = ground (arith, y) in
          let apart : (s == t) ≡ false = ground (arith, y) in
          let at : occ t c.free ≡ occ t ss = rw (e, apart) refl in
          let app = occ-append_other s t c.partial other in
          rw (y, app, sym at)
            (record {
              at_most_once = st.at_most_once;
              partial_ok = st.partial_ok;
              full_ok = st.full_ok;
              free_ok = st.free_ok;
              good = st.good;
            })
    ]

moved-Picked :
    (c : Cache) (s : ℕ) (ss : List ℕ)
    → IsValid c
    → c.partial ≡ []
    → c.free ≡ s ∷ ss
    → Picked (record c { free = ss; partial = c.partial ++ (s ∷ []) }) s
moved-Picked c s ss v none_partial e = record {
  laid = IsLaid-queues c (c.partial ++ (s ∷ [])) c.full ss c.slabs v.laid;
  here =
      let z : occ s c.partial ≡ 0 = rw none_partial refl in occ-append_self s c.partial ∙ ap suc z;
  stands = λ t. moved-Stands c s ss t v e;
}

-- What the picked slab and the others have to do with the cache before.
pub record Same (c c1 : Cache) (s : ℕ) : Type 0 where
  pub others : (t : ℕ) → t ≢ s → c1.slabs t ≡ c.slabs t
  pub others_queued : (t : ℕ) → t ≢ s → queued c1 t ≡ queued c t
  pub old_or_new : ((0 < queued c s) × (c1.slabs s ≡ c.slabs s)) ⊎ (queued c s ≡ 0)
  pub offset_kept : kmem_calc_align_offset c1 ≡ kmem_calc_align_offset c

abbrev pub Picks : Option ℕ → Cache → Exec (Option ℕ × Cache) → Type 0
Picks memory c m =
    ((m ≡ done (none, c)) × (c.partial ≡ []) × (c.free ≡ []) × (memory ≡ none))
    ⊎ ((s : ℕ) × (c1 : Cache) × (m ≡ done (some s, c1)) × Picked c1 s × Same c c1 s)

-- a free slab is on the queue of the free ones
free-queued : (c : Cache) (s : ℕ) (ss : List ℕ) → c.free ≡ s ∷ ss → 0 < queued c s
free-queued c s ss e =
    let self : (s == s) ≡ true = ground arith in
    let at : occ s c.free ≡ suc (occ s ss) = rw (e, self) refl in omega (arith, at)

moved-queued_other :
    (c : Cache) (s : ℕ) (ss : List ℕ) (t : ℕ)
    → c.free ≡ s ∷ ss
    → t ≢ s
    → queued (record c { free = ss; partial = c.partial ++ (s ∷ []) }) t ≡ queued c t
moved-queued_other c s ss t e other =
    let apart : (s == t) ≡ false = ground (arith, other) in
    let at : occ t c.free ≡ occ t ss = rw (e, apart) refl in
    let app = occ-append_other s t c.partial other in omega (arith, at, app)

pick_slab-grows :
    (memory : Option ℕ) (c : Cache)
    → IsValid c
    → IsFresh c memory
    → c.partial ≡ []
    → c.free ≡ []
    → Picks memory c (pick_slab memory c [] [])
unfolding pick_slab kmem_cache_grow
pick_slab-grows none c v fresh e f =
    let whole : (c.slab_size % page_size == 0) ≡ true = ground (arith, v.laid.whole) in
    inl (rw whole refl, e, f, refl)
pick_slab-grows (some block) c v fresh e f =
    let (offset, next, run, v1, absent) = kmem_cache_grow-IsValid c block v fresh in
    let c1 = grown c block offset next in
    let s = block + offset in
    let only : c1.free ≡ s ∷ [] = ap (λ l. l ++ (s ∷ [])) f in
    inr (
      s,
      record c1 { free = []; partial = c1.partial ++ (s ∷ []) },
      ap (λ m. m >>= after_grow) run ∙ ap (move_first c1) only,
      moved-Picked c1 s [] v1 e only,
      record {
        others = λ t h. let e1 : (t == block + offset) ≡ false = ground (arith, h) in rw e1 refl;
        others_queued = λ t h.
            let app = occ-append_other s t c.partial h in
            let empty : occ t c.free ≡ 0 = rw f refl in omega (arith, app, empty);
        old_or_new = inr absent;
        offset_kept = refl;
      },
    )

pub pick_slab-Picks :
    (memory : Option ℕ) (c : Cache)
    → IsValid c
    → IsFresh c memory
    → Picks memory c (pick_slab memory c c.partial c.free)
unfolding pick_slab
pick_slab-Picks memory c v fresh = elim (list_cases c.partial) [
  | inr (s, ss, e) ↦
      let self : (s == s) ≡ true = ground arith in
      let at : occ s c.partial ≡ suc (occ s ss) = rw (e, self) refl in
      inr (
        s,
        c,
        ap (λ p. pick_slab memory c p c.free) e,
        first-Picked c s ss v e,
        record {
          others = λ t h. refl;
          others_queued = λ t h. refl;
          old_or_new = inl (omega (arith, at), refl);
          offset_kept = refl;
        },
      )
  | inl e ↦ elim (list_cases c.free) [
    | inr (s, ss, f) ↦ inr (
      s,
      record c { free = ss; partial = c.partial ++ (s ∷ []) },
      ap (λ p. pick_slab memory c p c.free) e ∙ ap (pick_slab memory c []) f,
      moved-Picked c s ss v e f,
      record {
        others = λ t h. refl;
        others_queued = λ t h. moved-queued_other c s ss t f h;
        old_or_new = inl (free-queued c s ss f, refl);
        offset_kept = refl;
      },
    )
    | inl f ↦
        let q : pick_slab memory c c.partial c.free ≡ pick_slab memory c [] [] =
          ap (λ p. pick_slab memory c p c.free) e ∙ ap (pick_slab memory c []) f in
        elim (pick_slab-grows memory c v fresh e f) [
          | inl g ↦ inl (q ∙ g.0, g.1, g.2, g.3)
          | inr g ↦ inr (g.0, g.1, q ∙ g.2, g.3, g.4)
        ]
  ]
]
