-- ===== src/IdBitmap/Loop.antt =====
-- kern/id-bitmap.c: the search-and-grow loop of idbmap_get_id.
use mathlib.Core.Bool.{false≢true}
use yatos.Prelude.{
  ℕ, zero, suc, ◌+◌, ◌-◌, ◌*◌, ◌%◌, ◌^◌, ◌≤◌, ◌<◌, max, ◌≡◌, refl, sym, ◌∙◌, ap, ◌≢◌, ◌⊎◌, inl, inr,
  arith, Bool, true, false, ◌==◌, if◌then◌else◌, List, Option, none, some, Rc, ok, enomem, ebusy,
  einval, Exec, done,
}
use yatos.IdBitmap.Map.{
  IdMap, default_map_size, is_system, find_free_id, index_count, min_id, max_id, put_idbmap_ref,
}
use yatos.IdBitmap.Api.{grow, get_id_loop, put_and_return, Reply}
use yatos.IdBitmap.View.{used, used_in, HasWords, IsValid}
use yatos.IdBitmap.Find.{Finds, find_free_id-Finds}
use yatos.IdBitmap.Resize.{Resizes, resize_bitmap-Resizes, bit_of_past}

-- No id at or past the last word is in use.
used_past :
    (ws : Option (List ℕ)) (size ids j : ℕ)
    → HasWords ws size ids
    → 64 * size ≤ j
    → used_in ws j ≡ false
used_past none size ids j h le = refl
used_past (some ws) size ids j h le = bit_of_past ws j (omega (arith, h.0))

size_bound : (ws : Option (List ℕ)) (size ids : ℕ) → HasWords ws size ids → 64 * size < ids + 64
size_bound none size ids h = omega arith
size_bound (some ws) size ids h = h.3

zero_used :
    (ws : Option (List ℕ)) (size ids : ℕ) → HasWords ws size ids → 0 < ids → used_in ws 0 ≡ true
zero_used none size ids h pos = absurd (omega arith)
zero_used (some ws) size ids h pos = h.5

pub more_words :
    (ws : Option (List ℕ)) (size ids : ℕ)
    → HasWords ws size ids
    → ids + 1087 < 2 ^ 64
    → size < index_count (ids + default_map_size)
more_words none size ids h small = omega arith
more_words (some ws) size ids h small = omega (arith, h.2, h.3)

-- A well-formed map never has the id 0 free in a range that it covers.
free_pos : (m : IdMap) (k : ℕ) → IsValid m → k < m.nr_ids → used m k ≡ false → 0 < k
free_pos m zero v lt free = absurd (false≢true (sym free ∙ zero_used m.words _ _ v.shape lt))
free_pos m (suc k) v lt free = omega arith

-- The map with one reference fewer.
abbrev pub less_one : IdMap → IdMap
less_one m = record m { ref_count = record m.ref_count { counter = m.ref_count.counter - 1 } }

pub put_ref_lem :
    (m : IdMap)
    → 1 < m.ref_count.counter
    → m.ref_count.counter < 2 ^ 63
    → put_idbmap_ref m ≡ done (some (less_one m))
unfolding put_idbmap_ref
put_ref_lem m lo hi = ground arith

-- Where others hold references, the reply is given with one reference fewer.
put_and_return_lem :
    {A : Type 0} (a : A) (m : IdMap)
    → 1 < m.ref_count.counter
    → m.ref_count.counter < 2 ^ 63
    → put_and_return a m ≡ done (a, some (less_one m))
unfolding put_and_return
put_and_return_lem a m lo hi = rw (put_ref_lem m lo hi) refl

module _ (kmalloc : ℕ → Bool) where
  -- One more map of the default size always means more words.
  pub grow-Resizes :
      (m : IdMap)
      → IsValid m
      → m.nr_ids + 1087 < 2 ^ 64
      → (rc : Rc) × (m' : IdMap) × (grow kmalloc m ≡ done (rc, m'))
        × Resizes kmalloc m (m.nr_ids + default_map_size) rc m'
  grow-Resizes m v small =
      let no_wrap : (m.nr_ids + default_map_size) % 2 ^ 64 ≡ m.nr_ids + default_map_size =
        omega arith in
      let more = more_words m.words m.max_array_idx m.nr_ids v.shape small in
      rw no_wrap (
        resize_bitmap-Resizes kmalloc m (m.nr_ids + default_map_size) v (omega arith)
          (λ e. omega arith))

  -- The three ways through one round of the loop.
  loop_found :
      (fuel : ℕ) (m : IdMap) (idflags k : ℕ) (m1 : IdMap)
      → find_free_id m idflags ≡ done (some k, m1)
      → get_id_loop kmalloc (suc fuel) m idflags ≡ some (done ((ok, some k), some m1))
  unfolding get_id_loop
  loop_found fuel m idflags k m1 e = rw (e, get_id_loop) refl

  loop_grown :
      (fuel : ℕ) (m : IdMap) (idflags : ℕ) (m1 m2 : IdMap)
      → find_free_id m idflags ≡ done (none, m1)
      → grow kmalloc m1 ≡ done (ok, m2)
      → get_id_loop kmalloc (suc fuel) m idflags ≡ get_id_loop kmalloc fuel m2 idflags
  unfolding get_id_loop
  loop_grown fuel m idflags m1 m2 e g = rw (e, g, get_id_loop) refl

  loop_failed :
      (fuel : ℕ) (m : IdMap) (idflags : ℕ) (m1 m2 : IdMap) (rc : Rc)
      → rc ≢ ok
      → find_free_id m idflags ≡ done (none, m1)
      → grow kmalloc m1 ≡ done (rc, m2)
      → get_id_loop kmalloc (suc fuel) m idflags ≡ some (put_and_return (rc, none) m2)
  unfolding get_id_loop
  loop_failed fuel m idflags m1 m2 ok ne e g = absurd (ne refl)
  loop_failed fuel m idflags m1 m2 _ ne e g = rw (e, g, get_id_loop) refl

  -- What idbmap_get_id may give for a user id: a fresh one; or, where no id was free and the growth failed,
  -- the code of that growth, with the reference given back.
  abbrev pub GivesUserId : IdMap → ℕ → Option (Exec (Reply (Rc × Option ℕ))) → Type 0
  GivesUserId m idflags r =
      ((k : ℕ) × (m' : IdMap) × (r ≡ some (done ((ok, some k), some m')))
        × (m.reserved_ids ≤ k)
        × (0 < k)
        × (used m k ≡ false)
        × IsValid m'
        × ((j : ℕ) → 0 < j → used m' j ≡ (if k == j then true else used m j)))
      ⊎ ((rc : Rc) × (find_free_id m idflags ≡ done (none, m))
          × (grow kmalloc m ≡ done (rc, m))
          × (rc ≢ ok)
          × (r ≡ some (done ((rc, none), some (less_one m)))))

  user_range :
      (m : IdMap) (idflags : ℕ)
      → is_system idflags ≡ false
      → (min_id m idflags ≡ m.reserved_ids) × (max_id m idflags ≡ m.nr_ids)
  user_range m idflags user = ground arith

  -- The words that a growth adds hold a free user id.
  never_full :
      (m m2 m3 : IdMap) (idflags : ℕ)
      → is_system idflags ≡ false
      → IsValid m
      → m.nr_ids + 1087 < 2 ^ 64
      → Resizes kmalloc m (m.nr_ids + default_map_size) ok m2
      → Finds m2 idflags none m3
      → ⊥
  never_full m m2 m3 idflags user v small z (same, inl over) =
      omega (arith, (user_range m2 idflags user).1)
  never_full m m2 m3 idflags user v small z (same, inr full) =
      let j : ℕ = max (max (64 * m.max_array_idx) m.reserved_ids) 1 in
      let range = user_range m2 idflags user in
      let size = size_bound m.words m.max_array_idx m.nr_ids v.shape in
      let taken : used m2 j ≡ true =
        full j (omega (arith, range.0, z.5)) (omega (arith, range.1, z.1, z.3)) in
      let past = used_past m.words m.max_array_idx m.nr_ids j v.shape (omega arith) in
      let apart : (0 == j) ≡ false = ground arith in ground (arith, z.7 j, past, taken, apart)

  second_round :
      (fuel : ℕ) (m m2 : IdMap) (idflags : ℕ) (r : Option ℕ) (m3 : IdMap)
      → is_system idflags ≡ false
      → IsValid m
      → m.nr_ids + 1087 < 2 ^ 64
      → Resizes kmalloc m (m.nr_ids + default_map_size) ok m2
      → find_free_id m2 idflags ≡ done (r, m3)
      → Finds m2 idflags r m3
      → GivesUserId m idflags (get_id_loop kmalloc (suc fuel) m2 idflags)
  second_round fuel m m2 idflags none m3 user v small z e f =
      absurd (never_full m m2 m3 idflags user v small z f)
  second_round fuel m m2 idflags (some k) m3 user v small z e f =
      let range = user_range m2 idflags user in
      let inside : k < m2.nr_ids = omega (arith, f.1, f.2) in
      let pos = free_pos m2 k z.2 inside f.3 in
      inl (
        k,
        m3,
        loop_found fuel m2 idflags k m3 e,
        omega (arith, f.0, range.0, z.5),
        pos,
        ground (arith, z.7 k, f.3, pos),
        f.6,
        λ j hj. ground (arith, f.5 j, z.7 j, hj),
      )

  failed :
      (fuel : ℕ) (m : IdMap) (idflags : ℕ) (m2 : IdMap) (rc : Rc)
      → rc ≢ ok
      → find_free_id m idflags ≡ done (none, m)
      → grow kmalloc m ≡ done (rc, m2)
      → 1 < m.ref_count.counter
      → m.ref_count.counter < 2 ^ 63
      → m2 ≡ m
      → GivesUserId m idflags (get_id_loop kmalloc (suc (suc fuel)) m idflags)
  failed fuel m idflags m2 rc ne e g lo hi same = inr (
    rc,
    e,
    g ∙ ap (λ x. done (rc, x)) same,
    ne,
    loop_failed (suc fuel) m idflags m m2 rc ne e g
        ∙ ap (λ x. some (put_and_return (rc, none) x)) same
        ∙ ap some (put_and_return_lem (rc, none) m lo hi),
  )

  first_round :
      (fuel : ℕ) (m : IdMap) (idflags : ℕ) (rc : Rc) (m2 : IdMap)
      → is_system idflags ≡ false
      → IsValid m
      → m.nr_ids + 1087 < 2 ^ 64
      → 1 < m.ref_count.counter
      → m.ref_count.counter < 2 ^ 63
      → find_free_id m idflags ≡ done (none, m)
      → grow kmalloc m ≡ done (rc, m2)
      → Resizes kmalloc m (m.nr_ids + default_map_size) rc m2
      → GivesUserId m idflags (get_id_loop kmalloc (suc (suc fuel)) m idflags)
  first_round fuel m idflags ok m2 user v small lo hi e g z =
      let (r, m3, e2, f2) = find_free_id-Finds m2 idflags z.2 in
      rw (loop_grown (suc fuel) m idflags m m2 e g)
        (second_round fuel m m2 idflags r m3 user v small z e2 f2)
  first_round fuel m idflags ebusy m2 user v small lo hi e g z =
      failed fuel m idflags m2 ebusy (λ c. cc) e g lo hi z.0
  first_round fuel m idflags einval m2 user v small lo hi e g z =
      failed fuel m idflags m2 einval (λ c. cc) e g lo hi z.0
  first_round fuel m idflags enomem m2 user v small lo hi e g z =
      failed fuel m idflags m2 enomem (λ c. cc) e g lo hi z.0
  first_round fuel m idflags _ m2 user v small lo hi e g z = elim z [ ]

  start :
      (fuel : ℕ) (m : IdMap) (idflags : ℕ) (r : Option ℕ) (m1 : IdMap)
      → is_system idflags ≡ false
      → IsValid m
      → m.nr_ids + 1087 < 2 ^ 64
      → 1 < m.ref_count.counter
      → m.ref_count.counter < 2 ^ 63
      → find_free_id m idflags ≡ done (r, m1)
      → Finds m idflags r m1
      → GivesUserId m idflags (get_id_loop kmalloc (suc (suc fuel)) m idflags)
  start fuel m idflags none m1 user v small lo hi e f =
      let (rc, m2, g, z) = grow-Resizes m v small in
      first_round fuel m idflags rc m2 user v small lo hi (e ∙ ap (λ x. done (none, x)) f.0) g z
  start fuel m idflags (some k) m1 user v small lo hi e f =
      let range = user_range m idflags user in
      let inside : k < m.nr_ids = omega (arith, f.1, f.2) in
      inl (
        k,
        m1,
        loop_found (suc fuel) m idflags k m1 e,
        omega (arith, f.0, range.0),
        free_pos m k v inside f.3,
        f.3,
        f.6,
        λ j hj. f.5 j,
      )

  -- In a valid map that leaves room for one more growth below 2^64, with more than one reference and fewer
  -- than 2^63: for a user id two rounds of the loop are enough, whatever the heap grants. It ends with a fresh
  -- id outside the reserved ones, which alone comes into use; or no user id was free, the growth failed, and
  -- it ends with the code of that growth, the map as it was but for one reference fewer.
  pub get_id_loop_user :
      (fuel : ℕ) (m : IdMap) (idflags : ℕ)
      → is_system idflags ≡ false
      → IsValid m
      → m.nr_ids + 1087 < 2 ^ 64
      → 1 < m.ref_count.counter
      → m.ref_count.counter < 2 ^ 63
      → GivesUserId m idflags (get_id_loop kmalloc (suc (suc fuel)) m idflags)
  get_id_loop_user fuel m idflags user v small lo hi =
      let (r, m1, e, f) = find_free_id-Finds m idflags v in
      start fuel m idflags r m1 user v small lo hi e f

  -- With every system id in use.
  abbrev pub SystemFull : IdMap → Type 0
  SystemFull m =
      IsValid m
      × (m.reserved_ids ≤ m.nr_ids)
      × ((j : ℕ) → 1 ≤ j → j < m.reserved_ids → used m j ≡ true)

  system_range :
      (m : IdMap) (idflags : ℕ)
      → is_system idflags ≡ true
      → (min_id m idflags ≡ 1) × (max_id m idflags ≡ m.reserved_ids)
  system_range m idflags sys = ground arith

  full-Finds :
      (m : IdMap) (idflags : ℕ) (r : Option ℕ) (m1 : IdMap)
      → is_system idflags ≡ true
      → SystemFull m
      → find_free_id m idflags ≡ done (r, m1)
      → Finds m idflags r m1
      → find_free_id m idflags ≡ done (none, m)
  full-Finds m idflags none m1 sys full e f = e ∙ ap (λ x. done (none, x)) f.0
  full-Finds m idflags (some k) m1 sys full e f =
      let range = system_range m idflags sys in
      let taken = full.2 k (omega (arith, f.0, range.0)) (omega (arith, f.1, range.1)) in
      absurd (false≢true (sym f.3 ∙ taken))

  full_grown :
      (m m2 : IdMap)
      → SystemFull m
      → Resizes kmalloc m (m.nr_ids + default_map_size) ok m2
      → SystemFull m2
  full_grown m m2 full z =
      (z.2, omega (arith, z.5, z.3, full.1), λ j lo hi. ground (arith, z.7 j, full.2 j lo, z.5))

  -- A growth beyond the reserved ids that the heap grants succeeds.
  pub grow_granted :
      (m : IdMap) (rc : Rc) (m2 : IdMap)
      → kmalloc (8 * index_count (m.nr_ids + default_map_size)) ≡ true
      → m.reserved_ids < m.nr_ids + default_map_size
      → m.nr_ids + 1087 < 2 ^ 64
      → IsValid m
      → grow kmalloc m ≡ done (rc, m2)
      → Resizes kmalloc m (m.nr_ids + default_map_size) rc m2
      → (grow kmalloc m ≡ done (ok, m2)) × Resizes kmalloc m (m.nr_ids + default_map_size) ok m2
  grow_granted m ok m2 grants beyond small v e z = (e, z)
  grow_granted m enomem m2 grants beyond small v e z = absurd (false≢true (sym z.1 ∙ grants))
  grow_granted m einval m2 grants beyond small v e z = absurd (omega (arith, z.1))
  grow_granted m ebusy m2 grants beyond small v e (same, (j, far, taken)) =
      let more = more_words m.words m.max_array_idx m.nr_ids v.shape small in
      let past = used_past m.words m.max_array_idx m.nr_ids j v.shape (omega arith) in
      absurd (false≢true (sym past ∙ taken))
  grow_granted m _ m2 grants beyond small v e z = elim z [ ]

  -- A request for a system id, with all of them in use and a heap that grants, goes on growing the map:
  -- no number of rounds ends the loop, up to the width of an id.
  pub get_id_loop-SystemFull :
      (fuel : ℕ) (m : IdMap) (idflags : ℕ)
      → is_system idflags ≡ true
      → ((n : ℕ) → kmalloc n ≡ true)
      → SystemFull m
      → m.nr_ids + 1024 * fuel + 1087 < 2 ^ 64
      → get_id_loop kmalloc fuel m idflags ≡ none
  get_id_loop-SystemFull zero m idflags sys grants full small = unfold get_id_loop in refl
  get_id_loop-SystemFull (suc fuel) m idflags sys grants full small =
      let (r, m1, e, f) = find_free_id-Finds m idflags full.0 in
      let (rc, m2, g, z) = grow-Resizes m full.0 (omega arith) in
      let (g', z') =
        grow_granted m rc m2 (grants _) (omega (arith, full.1)) (omega arith) full.0 g z in
      loop_grown fuel m idflags m m2 (full-Finds m idflags r m1 sys full e f) g'
      ∙ get_id_loop-SystemFull fuel m2 idflags sys grants (full_grown m m2 full z')
          (omega (arith, z'.3))
