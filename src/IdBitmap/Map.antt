-- ===== src/IdBitmap/Map.antt =====
-- kern/id-bitmap.c: the id_bitmap structure and its internal functions.
use yatos.Prelude.{
  ℕ, zero, suc, ◌+◌, ◌-◌, ◌*◌, ◌/◌, ◌%◌, ◌^◌, Bool, true, false, ltb, leb, ◌==◌, ◌||◌,
  if◌then◌else◌, List, [], ◌∷◌, ◌++◌, Option, none, some, get_elem?, set, take, replicate, Rc, ok,
  enoent, enomem, ebusy, einval, Exec, done, stop, ◌>>=◌, ◌>>◌, kassert, is_ok,
}
use yatos.Bits.{test_bit, set_bit, clear_bit}
use yatos.Refcount.{Refcnt, refcnt_init, refcnt_get, refcnt_put}

-- `id_bitmap`. The word array is `none` where the pointer is NULL.
pub record IdMap : Type 0 where
  pub ref_count : Refcnt
  pub reserved_ids : ℕ
  pub nr_ids : ℕ
  pub max_array_idx : ℕ
  pub words : Option (List ℕ)

abbrev pub ids_per_ent : ℕ
ids_per_ent = 64

abbrev pub first_valid_id : ℕ
first_valid_id = 1

abbrev pub default_map_size : ℕ
default_map_size = 1024

-- `idflags & ID_BITMAP_SYSTEM`
abbrev pub is_system : ℕ → Bool
is_system idflags = idflags % 2 == 1

abbrev pub map_words : (List ℕ → List ℕ) → Option (List ℕ) → Option (List ℕ)
map_words f none = none
map_words f (some ws) = some (f ws)

-- `map[0] |= mask`, `map[0] &= ~mask`: ID_BITMAP_INVALID_ID_MASK is bit 0 of word 0. An
-- array has no words only where a size near 2^64 wraps to 0; the code then writes behind it, which stands outside this
-- model: the list is left alone.
abbrev pub update_first : (ℕ → ℕ) → List ℕ → List ℕ
update_first f [] = []
update_first f (w ∷ ws) = f w ∷ ws

unfoldable pub reserve_invalid_ids : IdMap → IdMap
reserve_invalid_ids m = record m { words = map_words (update_first (λ w. set_bit w 0)) m.words }

unfoldable pub release_invalid_ids : IdMap → IdMap
release_invalid_ids m = record m { words = map_words (update_first (λ w. clear_bit w 0)) m.words }

unfoldable pub init_idbmap_common : ℕ → IdMap
init_idbmap_common reserved = record {
  ref_count = refcnt_init;
  reserved_ids = reserved;
  nr_ids = 0;
  max_array_idx = 0;
  words = none;
}

-- `map[i]`: an access outside the array is no defined behaviour.
abbrev pub read : Option (List ℕ) → ℕ → Exec ℕ
read none i = stop
read (some ws) i = elim (get_elem? ws i) [ none ↦ stop | some w ↦ done w ]

-- `for(; ...; ++i) if ( map[i] != 0 ) ...`: whether one of the n words from i on is in use.
unfoldable pub scan_used : Option (List ℕ) → ℕ → ℕ → Exec Bool
scan_used ws i zero = done false
scan_used ws i (suc n) =
    let rest = scan_used ws (i + 1) n in read ws i >>= λ w. if w == 0 then rest else done true

-- the index of the array after the resize, in 64-bit arithmetic
abbrev pub index_count : ℕ → ℕ
index_count new_ids = (new_ids + (ids_per_ent - 1)) % 2 ^ 64 / ids_per_ent

-- the zeroed new array with the first n words of the old one moved in
abbrev pub move_words : ℕ → ℕ → Option (List ℕ) → List ℕ
move_words size n none = replicate size 0
move_words size n (some ws) = take n ws ++ replicate (size - n) 0

-- the last part of resize_bitmap: the new array takes the place of the old one
unfoldable pub install : IdMap → ℕ → List ℕ → IdMap
unfolding reserve_invalid_ids
install m new_ids new_map =
    reserve_invalid_ids
      (record m { nr_ids = new_ids; max_array_idx = index_count new_ids; words = some new_map })

module _ (kmalloc : ℕ → Bool) where
  unfoldable pub resize_bitmap : IdMap → ℕ → Exec (Rc × IdMap)
  unfolding install scan_used
  resize_bitmap m new_ids =
      if new_ids == 0 || leb new_ids m.reserved_ids
      then done (einval, m)
      else if kmalloc (8 * new_idx)
      then (if ltb m.max_array_idx new_idx
          then done (ok, install m new_ids (move_words new_idx m.max_array_idx m.words))
          else if ltb new_idx m.max_array_idx
          then (scan_used m.words new_idx (m.max_array_idx - new_idx) >>= λ used.
              if used
              then done (ebusy, m)
              else done (ok, install m new_ids (move_words new_idx new_idx m.words)))
          else done (ok, install m new_ids (replicate new_idx 0)))
      else done (enomem, m)
    where
      new_idx : ℕ
      new_idx = index_count new_ids

-- The loop of find_free_id: the first of the n ids from id on whose bit is clear.
unfoldable pub find_clear : Option (List ℕ) → ℕ → ℕ → Exec (Option ℕ)
find_clear ws id zero = done none
find_clear ws id (suc n) =
    let rest = find_clear ws (id + 1) n in
    read ws (id / 64) >>= λ w. if test_bit w (id % 64) then rest else done (some id)

-- `map[idx] |= (1ULL << pos)` and `map[idx] &= ~(1ULL << pos)`, at a word that was just read
abbrev pub write_word : IdMap → ℕ → ℕ → IdMap
write_word m idx w = record m { words = map_words (λ ws. set ws idx w) m.words }

unfoldable pub use_id : IdMap → ℕ → Exec IdMap
use_id m id = read m.words (id / 64) >>= λ w. done (write_word m (id / 64) (set_bit w (id % 64)))

-- the search range, by the kind of id
abbrev pub min_id : IdMap → ℕ → ℕ
min_id m idflags = if is_system idflags then first_valid_id else m.reserved_ids

abbrev pub max_id : IdMap → ℕ → ℕ
max_id m idflags = if is_system idflags then m.reserved_ids else m.nr_ids

-- The option is what goes through `idp`; it is `none` with -ENOENT.
unfoldable pub find_free_id : IdMap → ℕ → Exec (Option ℕ × IdMap)
unfolding find_clear use_id
find_free_id m idflags =
    if ltb m.nr_ids (max_id m idflags)
    then done (none, m)
    else (find_clear m.words (min_id m idflags) (max_id m idflags - min_id m idflags) >>= λ found.
        elim found [ none ↦ done (none, m) | some id ↦ (use_id m id >>= λ m'. done (some id, m')) ])

unfoldable pub free_map_in_idmap : IdMap → Exec (Rc × IdMap)
unfolding release_invalid_ids reserve_invalid_ids scan_used
free_map_in_idmap m =
    let m1 = release_invalid_ids m in
    scan_used m1.words 0 m1.max_array_idx >>= λ used.
    if used
    then done (ebusy, reserve_invalid_ids m1)
    else done (ok, record m1 { nr_ids = 0; max_array_idx = 0; words = none })

unfoldable pub get_idbmap_ref : IdMap → Rc × IdMap
unfolding refcnt_get
get_idbmap_ref m =
    let ((rc, old), c) = refcnt_get m.ref_count in
    elim rc [ ok ↦ (ok, record m { ref_count = c }) | _ ↦ (enoent, record m { ref_count = c }) ]

-- `none` is the map after `kfree( idmap )`.
unfoldable pub put_idbmap_ref : IdMap → Exec (Option IdMap)
unfolding refcnt_put free_map_in_idmap
put_idbmap_ref m = refcnt_put m.ref_count >>= λ r.
    let m1 = record m { ref_count = r.1 } in
    if is_ok r.0.0
    then (kassert (r.0.1 == 1) >> (free_map_in_idmap m1 >>= λ f. kassert (is_ok f.0) >> done none))
    else done (some m1)
