-- ===== src/IdBitmap/Api.antt =====
-- kern/id-bitmap.c: the interface functions, from idbmap_get_specified_id to idbmap_create.
use yatos.Prelude.{
  ℕ, zero, suc, ◌+◌, ◌/◌, ◌%◌, ◌^◌, Bool, leb, ◌&&◌, if◌then◌else◌, Option, none, some, Rc, ok,
  enoent, enomem, ebusy, einval, is_ok, Exec, done, stop, ◌>>=◌, ◌>>◌, kassert,
}
use yatos.Bits.{test_bit, clear_bit}
use yatos.Refcount.{refcnt_mark_deleted}
use yatos.IdBitmap.Map.{
  IdMap, default_map_size, is_system, read, write_word, init_idbmap_common, resize_bitmap,
  find_free_id, use_id, free_map_in_idmap, get_idbmap_ref, put_idbmap_ref,
}

-- A reply beside the map that is left, `none` once it has been freed.
abbrev pub Reply : Type 0 → Type 0
Reply A = A × Option IdMap

-- `put_idbmap_ref(idmap); return rc;`
unfoldable pub put_and_return {ℓ} : {A : Type ℓ} → A → IdMap → Exec (A × Option IdMap)
put_and_return rc m = put_idbmap_ref m >>= λ left. done (rc, left)

-- the second half of idbmap_get_specified_id, under the lock
unfoldable pub take_id : IdMap → ℕ → Exec (Reply Rc)
unfolding put_and_return use_id
take_id m id = read m.words (id / 64) >>= λ w.
    if test_bit w (id % 64)
    then put_and_return ebusy m
    else (use_id m id >>= λ m'. done (ok, some m'))

unfoldable pub idbmap_put_id : IdMap → ℕ → Exec (Option IdMap)
idbmap_put_id m id = read m.words (id / 64) >>= λ w.
    kassert (test_bit w (id % 64))
    >> put_idbmap_ref (write_word m (id / 64) (clear_bit w (id % 64)))

unfoldable pub idbmap_init : ℕ → IdMap
unfolding init_idbmap_common
idbmap_init reserved_ids = init_idbmap_common reserved_ids

unfoldable pub idbmap_free : IdMap → Exec (Reply Rc)
unfolding get_idbmap_ref free_map_in_idmap put_and_return
idbmap_free m =
    let (rc, m1) = get_idbmap_ref m in
    if is_ok rc
    then (free_map_in_idmap m1 >>= λ f. put_and_return f.0 f.1)
    else done (einval, some m1)

unfoldable pub idbmap_destroy : IdMap → Exec (Option IdMap)
unfolding refcnt_mark_deleted put_idbmap_ref
idbmap_destroy m = put_idbmap_ref (record m { ref_count = refcnt_mark_deleted m.ref_count })

-- The argument says whether kmalloc grants the structure itself.
unfoldable pub idbmap_create : Bool → ℕ → Rc × Option IdMap
unfolding init_idbmap_common
idbmap_create allocated reserved_ids =
    if allocated then (ok, some (init_idbmap_common reserved_ids)) else (enomem, none)

module _ (kmalloc : ℕ → Bool) where
  -- `idmap->nr_ids + ID_BITMAP_DEFAULT_MAP_SIZE`, in 64-bit arithmetic
  abbrev pub grow : IdMap → Exec (Rc × IdMap)
  grow m = resize_bitmap kmalloc m ((m.nr_ids + default_map_size) % 2 ^ 64)

  unfoldable pub idbmap_get_specified_id : IdMap → ℕ → ℕ → Exec (Reply Rc)
  unfolding get_idbmap_ref resize_bitmap take_id
  idbmap_get_specified_id m id idflags =
      if is_system idflags && leb m.reserved_ids id
      then done (einval, some m)
      else (let (rc, m1) = get_idbmap_ref m in
          if is_ok rc
          then (if leb m1.max_array_idx (id / 64)
              then (grow m1 >>= λ g. if is_ok g.0 then take_id g.1 id else put_and_return g.0 g.1)
              else take_id m1 id)
          else done (enoent, some m1))

  -- The do-while loop of idbmap_get_id, on fuel: the outer `none` is a loop that has not ended.
  unfoldable pub get_id_loop : ℕ → IdMap → ℕ → Option (Exec (Reply (Rc × Option ℕ)))
  get_id_loop zero m idflags = none
  get_id_loop (suc fuel) m idflags = elim (find_free_id m idflags) [
    | done (some id, m1) ↦ some (done ((ok, some id), some m1))
    | done (none, m1) ↦ elim (grow m1) [
      | done (ok, m2) ↦ get_id_loop fuel m2 idflags
      | done (rc, m2) ↦ some (put_and_return (rc, none) m2)
      | stop ↦ some stop
    ]
    | stop ↦ some stop
  ]

  unfoldable pub idbmap_get_id : ℕ → IdMap → ℕ → Option (Exec (Reply (Rc × Option ℕ)))
  unfolding get_idbmap_ref get_id_loop
  idbmap_get_id fuel m idflags =
      let (rc, m1) = get_idbmap_ref m in
      let loop = get_id_loop fuel m1 idflags in
      if is_ok rc then loop else some (done ((enoent, none), some m1))

  unfoldable pub idbmap_resize : IdMap → ℕ → Exec (Reply Rc)
  unfolding get_idbmap_ref resize_bitmap put_and_return
  idbmap_resize m new_ids =
      let (rc, m1) = get_idbmap_ref m in
      if is_ok rc
      then (resize_bitmap kmalloc m1 new_ids >>= λ r. put_and_return r.0 r.1)
      else done (enoent, some m1)
