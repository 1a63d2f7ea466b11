-- ===== src/NameService/Registration.antt =====
-- kern/kname-service.c: the table as a partial function from names to endpoints, and what the handlers
-- do to it.
use yatos.Prelude.{
  ℕ, ◌≡◌, refl, ◌∙◌, inl, inr, arith, Bool, true, false, not, ◌||◌, ◌==◌, if◌then◌else◌, Bool-cases,
  [], ◌∷◌, Option, none, some, enoent, einval, enomem, ebusy, is_ok, done, ◌<◌, length, lt→ltb,
}
use yatos.NameService.Table.{
  Name, ServiceDb, Message, same_name, find, remove, handle_register_msg, handle_unregister_msg,
  id_resv_invalid, id_resv_idle, kserv_name_len,
}

same_name_refl : (a : Name) → same_name a a ≡ true
unfolding same_name
same_name_refl [] = refl
same_name_refl (x ∷ a) = let here : (x == x) ≡ true = ground arith in rw here (same_name_refl a)

same_name-eq : (a b : Name) → same_name a b ≡ true → a ≡ b
unfolding same_name
same_name-eq [] [] h = refl
same_name-eq [] (y ∷ b) h = cc
same_name-eq (x ∷ a) [] h = cc
same_name-eq (x ∷ a) (y ∷ b) h = elim (Bool-cases (x == y)) [
  | inl e ↦
      let here : x ≡ y = ground arith in
      let rest : a ≡ b = same_name-eq a b (ground arith) in rw (here, rest) refl
  | inr e ↦ absurd (ground arith)
]

-- No name is in the table twice.
abbrev pub IsUnique : ServiceDb → Type 0
IsUnique [] = Unit {0}
IsUnique (s ∷ db) = (find db s.name ≡ none) × IsUnique db

find-remove :
    (db : ServiceDb) (name k : Name)
    → IsUnique db
    → find (remove db name) k ≡ (if same_name name k then none else find db k)
unfolding find remove
find-remove [] name k u = elim (Bool-cases (same_name name k)) [
  | inl e ↦ rw e refl
  | inr e ↦ rw e refl
]
find-remove (s ∷ db) name k u = elim (Bool-cases (same_name s.name name)) [
  | inl e ↦
      let it : s.name ≡ name = same_name-eq s.name name e in
      rw (e, ← it)
        (elim (Bool-cases (same_name s.name k)) [
          | inl i ↦ rw (i, ← same_name-eq s.name k i) u.0
          | inr i ↦ rw i refl
        ])
  | inr e ↦
      rw (e, find-remove db name k u.1)
        (elim (Bool-cases (same_name name k)) [
          | inl i ↦ let it : name ≡ k = same_name-eq name k i in rw (i, ← it, e) refl
          | inr i ↦ rw i refl
        ])
]

remove-IsUnique : (db : ServiceDb) (name : Name) → IsUnique db → IsUnique (remove db name)
unfolding remove
remove-IsUnique [] name u = u
remove-IsUnique (s ∷ db) name u = elim (Bool-cases (same_name s.name name)) [
  | inl e ↦ rw e u.1
  | inr e ↦ rw e (
    find-remove db name s.name u.1
        ∙ elim (Bool-cases (same_name name s.name)) [ inl i ↦ rw i refl | inr i ↦ rw i u.0 ],
    remove-IsUnique db name u.1,
  )
]

abbrev pub is_found : Option ℕ → Bool
is_found none = false
is_found (some id) = true

-- Registering a name of less than 128 bytes, with an id that is not the idle thread's: if the id is invalid, the heap refuses
-- or the name is taken, the table stays as it is and the message gets an error code; otherwise the
-- message stays as it is, the name stands for the id and every other name for what it stood for. No
-- name is in the table twice afterwards either.
pub handle_register_msg-Registers :
    (grants : Bool) (db : ServiceDb) (knmsg : Message) (key : Name) (id : ℕ)
    → IsUnique db
    → (id == id_resv_idle) ≡ false
    → length key < kserv_name_len
    → (reply : Message) × (db' : ServiceDb) × (handle_register_msg grants db knmsg key id
        ≡ done (reply, db'))
      × IsUnique db'
      × (if (id == id_resv_invalid) || not grants || is_found (find db key)
          then (db' ≡ db) × (is_ok reply.rc ≡ false)
          else (reply ≡ knmsg)
            × ((k : Name) → find db' k ≡ (if same_name key k then some id else find db k)))
unfolding handle_register_msg find
handle_register_msg-Registers grants db knmsg key id u busy short =
    elim (Bool-cases (id == id_resv_invalid)) [
      | inl e ↦ (record knmsg { rc = einval }, db, rw (busy, e) refl, u, rw e (refl, refl))
      | inr e ↦ with_node grants (find db key) refl e
    ]
  where
    Goal : Bool → Type 0
    Goal granted =
        (reply : Message) × (db' : ServiceDb) × (handle_register_msg granted db knmsg key id
          ≡ done (reply, db'))
        × IsUnique db'
        × (if (id == id_resv_invalid) || not granted || is_found (find db key)
            then (db' ≡ db) × (is_ok reply.rc ≡ false)
            else (reply ≡ knmsg)
              × ((k : Name) → find db' k ≡ (if same_name key k then some id else find db k)))

    with_node :
        (granted : Bool) (o : Option ℕ)
        → find db key ≡ o
        → (id == id_resv_invalid) ≡ false
        → Goal granted
    with_node false o f e =
        (record knmsg { rc = enomem }, db, rw (busy, e) refl, u, rw e (refl, refl))
    with_node true (some old) f e = (
      record knmsg { rc = ebusy },
      db,
      rw (busy, e, lt→ltb (length key) 128 short, f) refl,
      u,
      rw (e, f) (refl, refl),
    )
    with_node true none f e = (
      knmsg,
      (record { name = key; id = id }) ∷ db,
      rw (busy, e, lt→ltb (length key) 128 short, f) refl,
      (f, u),
      rw (e, f) (refl, λ k. refl),
    )

-- Taking a name out of the table: a name that is not there is answered by -ENOENT and changes nothing;
-- otherwise the message stays as it is and that name alone no longer stands for anything.
pub handle_unregister_msg-Removes :
    (db : ServiceDb) (knmsg : Message) (key : Name)
    → IsUnique db
    → (reply : Message) × (db' : ServiceDb) × (handle_unregister_msg db knmsg key ≡ (reply, db'))
      × IsUnique db'
      × ((k : Name) → find db' k ≡ (if same_name key k then none else find db k))
      × (if is_found (find db key)
          then reply ≡ knmsg
          else (reply ≡ record knmsg { rc = enoent }) × (db' ≡ db))
unfolding handle_unregister_msg
handle_unregister_msg-Removes db knmsg key u = go (find db key) refl
  where
    Goal : Type 0
    Goal =
        (reply : Message) × (db' : ServiceDb) × (handle_unregister_msg db knmsg key ≡ (reply, db'))
        × IsUnique db'
        × ((k : Name) → find db' k ≡ (if same_name key k then none else find db k))
        × (if is_found (find db key)
            then reply ≡ knmsg
            else (reply ≡ record knmsg { rc = enoent }) × (db' ≡ db))

    missing :
        (k : Name) → find db key ≡ none → find db k ≡ (if same_name key k then none else find db k)
    missing k f = elim (Bool-cases (same_name key k)) [
      | inl e ↦ rw (e, ← same_name-eq key k e) f
      | inr e ↦ rw e refl
    ]

    go : (o : Option ℕ) → find db key ≡ o → Goal
    go none f = (
      record knmsg { rc = enoent },
      db,
      rw (handle_unregister_msg, f) refl,
      u,
      λ k. missing k f,
      rw f (refl, refl),
    )
    go (some id) f = (
      knmsg,
      remove db key,
      rw (handle_unregister_msg, f) refl,
      remove-IsUnique db key u,
      λ k. find-remove db key k u,
      rw f refl,
    )
