-- ===== src/IdBitmap/Ids.antt =====
-- kern/id-bitmap.c: idbmap_get_specified_id and idbmap_put_id against the set of ids in use.
use yatos.Prelude.{
  ℕ, ◌+◌, ◌-◌, ◌*◌, ◌/◌, ◌%◌, ◌^◌, ◌≤◌, ◌<◌, ◌≡◌, refl, sym, ◌∙◌, ap, ◌⊎◌, inl, inr, arith, Bool,
  true, false, ◌==◌, leb, ◌&&◌, if◌then◌else◌, Bool-cases, Option-cases, ltb, List, length, get_or,
  set, some, ok, ebusy, done, stop,
}
use yatos.Bits.{set_bit, clear_bit}
use yatos.Bits.Laws.{clear_bit-le}
use yatos.IdBitmap.Map.{
  IdMap, read, default_map_size, is_system, index_count, map_words, get_idbmap_ref, put_idbmap_ref,
}
use yatos.IdBitmap.Api.{take_id, idbmap_put_id, idbmap_get_specified_id, put_and_return}
use yatos.IdBitmap.View.{
  bit_of, used, used_in, IsValid, shape_of, read_in, read_past, test_bit-read, bit_of-set_bit,
  bit_of-clear_bit, use_id-IsValid, write_word-IsValid, AreWords-get_or,
}
use yatos.IdBitmap.Loop.{grow-Resizes, grow_granted, more_words, put_ref_lem}

-- An id that the words of the map cover.
abbrev pub Covers : IdMap → ℕ → Type 0
Covers m id = id / 64 < m.max_array_idx

words_covering :
    (m : IdMap) (id : ℕ) → IsValid m → Covers m id → (ws : List ℕ) × (m.words ≡ some ws)
words_covering m id v c = ground arith

read_words :
    (m : IdMap) (ws : List ℕ) (i : ℕ)
    → m.words ≡ some ws
    → i < length ws
    → read m.words i ≡ done (get_or ws i 0)
read_words m ws i e h = ap (λ o. read o i) e ∙ read_in ws i h

put_id_eq :
    (m : IdMap) (ws : List ℕ) (id : ℕ)
    → m.words ≡ some ws
    → id / 64 < length ws
    → bit_of ws id ≡ true
    → idbmap_put_id m id
      ≡ put_idbmap_ref (record m {
        words = some (set ws (id / 64) (clear_bit (get_or ws (id / 64) 0) (id % 64)));
      })
unfolding idbmap_put_id
put_id_eq m ws id e h taken =
    rw (read_words m ws (id / 64) e h, test_bit-read ws id, taken)
      (ap
        (λ o. put_idbmap_ref (record m {
          words =
              map_words (λ us. set us (id / 64) (clear_bit (get_or ws (id / 64) 0) (id % 64))) o;
        }))
        e)

-- Giving back an id other than 0 that a valid map covers and has in use, with more than one reference to the
-- map and fewer than 2^63: the call does not stop, that id alone goes out of use, one reference is given
-- back, and the map stays well formed.
pub idbmap_put_id-used :
    (m : IdMap) (id : ℕ)
    → IsValid m
    → 0 < id
    → Covers m id
    → used m id ≡ true
    → 1 < m.ref_count.counter
    → m.ref_count.counter < 2 ^ 63
    → (m' : IdMap) × (idbmap_put_id m id ≡ done (some m'))
      × IsValid m'
      × ((j : ℕ) → used m' j ≡ (if id == j then false else used m j))
      × (m'.ref_count.counter + 1 ≡ m.ref_count.counter)
unfolding idbmap_put_id
idbmap_put_id-used m id v pos covered taken lo hi =
    let (ws, e) = words_covering m id v covered in
    let shape = shape_of m ws v e in
    let inside : id / 64 < length ws = omega (arith, shape.0) in
    let w = get_or ws (id / 64) 0 in
    let cleared = clear_bit w (id % 64) in
    let m1 : IdMap = record m { words = some (set ws (id / 64) cleared) } in
    let small = AreWords-get_or ws (id / 64) shape.4 in
    let keeps_zero : bit_of (set ws (id / 64) cleared) 0 ≡ true =
      ground (arith, bit_of-clear_bit ws id 0 inside, shape.5) in
    let valid =
      write_word-IsValid m ws (id / 64) cleared v e (omega (arith, clear_bit-le w (id % 64)))
        keeps_zero in
    (
      record m1 { ref_count = record m.ref_count { counter = m.ref_count.counter - 1 } },
      put_id_eq m ws id e inside (sym (ap (λ o. used_in o id) e) ∙ taken) ∙ put_ref_lem m1 lo hi,
      record { shape = valid.shape; range = valid.range },
      λ j.
          bit_of-clear_bit ws id j inside
          ∙ ap (λ b. if id == j then false else b) (sym (ap (λ o. used_in o j) e)),
      omega arith,
    )

-- Giving back an id that is not in use stops the kernel.
pub idbmap_put_id_unused :
    (m : IdMap) (id : ℕ) → IsValid m → used m id ≡ false → idbmap_put_id m id ≡ stop
unfolding idbmap_put_id
idbmap_put_id_unused m id v free = elim (Option-cases m.words) [
  | inl e ↦ ground arith
  | inr (ws, e) ↦ elim (Bool-cases (ltb (id / 64) (length ws))) [
    | inl p ↦
        let clear : bit_of ws id ≡ false = sym (ap (λ o. used_in o id) e) ∙ free in
        rw (read_words m ws (id / 64) e (ground arith), test_bit-read ws id, clear) refl
    | inr p ↦
        let past : read m.words (id / 64) ≡ stop =
          ap (λ o. read o (id / 64)) e ∙ read_past ws (id / 64) (ground arith) in
        rw past refl
  ]
]

get_ref_lem :
    (m : IdMap)
    → m.ref_count.deleted ≡ false
    → m.ref_count.counter + 1 < 2 ^ 63
    → get_idbmap_ref m
      ≡ (ok, record m { ref_count = record m.ref_count { counter = m.ref_count.counter + 1 } })
unfolding get_idbmap_ref
get_ref_lem m h room = ground arith

take_id_free :
    (m : IdMap) (id : ℕ)
    → IsValid m
    → Covers m id
    → used m id ≡ false
    → (m' : IdMap) × (take_id m id ≡ done (ok, some m'))
      × IsValid m'
      × ((j : ℕ) → used m' j ≡ (if id == j then true else used m j))
      × (m'.ref_count ≡ m.ref_count)
      × (m'.nr_ids ≡ m.nr_ids)
unfolding take_id
take_id_free m id v covered free =
    let (ws, e) = words_covering m id v covered in
    let shape = shape_of m ws v e in
    let inside : id / 64 < length ws = omega (arith, shape.0) in
    let clear : bit_of ws id ≡ false = sym (ap (λ o. used_in o id) e) ∙ free in
    (
      record m { words = some (set ws (id / 64) (set_bit (get_or ws (id / 64) 0) (id % 64))) },
      rw (read_words m ws (id / 64) e inside, test_bit-read ws id, clear)
          (ap
            (λ o. done (
              ok,
              some (record m {
                words =
                    map_words (λ us. set us (id / 64) (set_bit (get_or ws (id / 64) 0) (id % 64)))
                      o;
              }),
            ))
            e),
      use_id-IsValid m ws id v e inside,
      λ j.
          bit_of-set_bit ws id j inside
          ∙ ap (λ b. if id == j then true else b) (sym (ap (λ o. used_in o j) e)),
      refl,
      refl,
    )

take_id-used :
    (m : IdMap) (id : ℕ)
    → IsValid m
    → Covers m id
    → used m id ≡ true
    → take_id m id ≡ put_and_return ebusy m
unfolding take_id
take_id-used m id v covered taken =
    let (ws, e) = words_covering m id v covered in
    let shape = shape_of m ws v e in
    let inside : id / 64 < length ws = omega (arith, shape.0) in
    let set_already : bit_of ws id ≡ true = sym (ap (λ o. used_in o id) e) ∙ taken in
    rw (read_words m ws (id / 64) e inside, test_bit-read ws id, set_already) refl

-- The request is not one for a system id outside the reserved range.
abbrev pub IsAllowed : IdMap → ℕ → ℕ → Type 0
IsAllowed m id idflags = (is_system idflags && leb m.reserved_ids id) ≡ false

-- Another reference to the map can be taken.
abbrev pub IsAlive : IdMap → Type 0
IsAlive m =
    (m.ref_count.deleted ≡ false) × (0 < m.ref_count.counter) × (m.ref_count.counter + 1 < 2 ^ 63)

abbrev referenced : IdMap → IdMap
referenced m = record m { ref_count = record m.ref_count { counter = m.ref_count.counter + 1 } }

put_back : (m : IdMap) → IsAlive m → put_and_return ebusy (referenced m) ≡ done (ebusy, some m)
unfolding put_and_return put_idbmap_ref
put_back m alive = ground arith

module _ (kmalloc : ℕ → Bool) where
  get_specified_eq :
      (m : IdMap) (id idflags : ℕ)
      → IsAlive m
      → IsAllowed m id idflags
      → Covers m id
      → idbmap_get_specified_id kmalloc m id idflags ≡ take_id (referenced m) id
  unfolding idbmap_get_specified_id
  get_specified_eq m id idflags alive allowed covered =
      let short : leb m.max_array_idx (id / 64) ≡ false = ground arith in
      rw (allowed, get_ref_lem m alive.0 alive.2, short) refl

  -- In a valid map that is not deleted and has a reference, with room for one more below 2^63: asking for an
  -- id that the words of the map cover, and that is not a request for a system id with an id past the
  -- reserved ones. It is granted exactly when it is not in use, else answered by -EBUSY. A grant puts that id alone in use and takes one reference; a refusal changes nothing.
  pub idbmap_get_specified_id_covered :
      (m : IdMap) (id idflags : ℕ)
      → IsValid m
      → IsAlive m
      → IsAllowed m id idflags
      → Covers m id
      → ((used m id ≡ true) × (idbmap_get_specified_id kmalloc m id idflags ≡ done (ebusy, some m)))
        ⊎ ((used m id ≡ false)
            × ((m' : IdMap) × (idbmap_get_specified_id kmalloc m id idflags ≡ done (ok, some m'))
                × IsValid m'
                × ((j : ℕ) → used m' j ≡ (if id == j then true else used m j))
                × (m'.ref_count.counter ≡ m.ref_count.counter + 1)
                × (m'.nr_ids ≡ m.nr_ids)))
  idbmap_get_specified_id_covered m id idflags v alive allowed covered =
      let start = get_specified_eq m id idflags alive allowed covered in
      let v1 : IsValid (referenced m) = record { shape = v.shape; range = v.range } in
      elim (Bool-cases (used m id)) [
        | inl taken ↦
            inl (taken, start ∙ take_id-used (referenced m) id v1 covered taken ∙ put_back m alive)
        | inr free ↦
            let (m', e, v', view, refs, ids) = take_id_free (referenced m) id v1 covered free in
            inr (free, (m', start ∙ e, v', view, ap (λ r. r.counter) refs, ids))
      ]

  take_id_past : (m : IdMap) (id : ℕ) → IsValid m → m.max_array_idx ≤ id / 64 → take_id m id ≡ stop
  unfolding take_id
  take_id_past m id v past = elim (Option-cases m.words) [
    | inl e ↦ ground arith
    | inr (ws, e) ↦
        let out : read m.words (id / 64) ≡ stop =
          ap (λ o. read o (id / 64)) e
          ∙ read_past ws (id / 64) (omega (arith, (shape_of m ws v e).0)) in
        rw out refl
  ]

  -- Asking for an id that one growth by the default size does not reach, with a heap that grants it:
  -- the code grows the map once and then accesses a word outside it.
  pub idbmap_get_specified_id_far :
      (m : IdMap) (id idflags : ℕ)
      → IsValid m
      → IsAlive m
      → IsAllowed m id idflags
      → m.nr_ids + 1087 < 2 ^ 64
      → m.reserved_ids < m.nr_ids + default_map_size
      → kmalloc (8 * index_count (m.nr_ids + default_map_size)) ≡ true
      → index_count (m.nr_ids + default_map_size) ≤ id / 64
      → idbmap_get_specified_id kmalloc m id idflags ≡ stop
  unfolding idbmap_get_specified_id
  idbmap_get_specified_id_far m id idflags v alive allowed small beyond granted far =
      let v1 : IsValid (referenced m) = record { shape = v.shape; range = v.range } in
      let more = more_words m.words m.max_array_idx m.nr_ids v.shape small in
      let long : leb m.max_array_idx (id / 64) ≡ true = ground arith in
      let (rc, m2, g, z) = grow-Resizes kmalloc (referenced m) v1 small in
      let (g', z') = grow_granted kmalloc (referenced m) rc m2 granted beyond small v1 g z in
      rw (allowed, get_ref_lem m alive.0 alive.2, long, g')
        (take_id_past m2 id z'.2 (omega (arith, z'.4)))
