-- ===== src/NameService/Table.antt =====
-- kern/kname-service.c and include/kern/kname-service.h: the table of services and the handlers of the
-- three requests. A name is the list of its bytes before the terminating 0.
use yatos.Prelude.{
  ℕ, zero, suc, ◌-◌, ◌^◌, Bool, true, false, not, ltb, ◌==◌, if◌then◌else◌, List, [], ◌∷◌, take,
  length, Option, none, some, Rc, ok, enoent, enomem, efault, ebusy, einval, Exec, done, ◌>>◌,
  kassert,
}

abbrev pub kserv_name_len : ℕ
kserv_name_len = 128

abbrev pub id_resv_invalid : ℕ
id_resv_invalid = 2 ^ 64 - 1

abbrev pub id_resv_idle : ℕ
id_resv_idle = 0

abbrev pub Name : Type 0
Name = List ℕ

-- `kern_service`
pub record KernService : Type 0 where
  pub name : Name
  pub id : ℕ

-- the tree of services, by name; the tree's order does not matter to the code
abbrev pub ServiceDb : Type 0
ServiceDb = List KernService

-- `kname_service_msg`
pub record Message : Type 0 where
  pub req : ℕ
  pub len : ℕ
  pub id : ℕ
  pub rc : Rc

-- `kserv_cmp(a, b) == 0`
unfoldable pub same_name : Name → Name → Bool
same_name [] [] = true
same_name [] (y ∷ ys) = false
same_name (x ∷ xs) [] = false
same_name (x ∷ xs) (y ∷ ys) = let rest = same_name xs ys in if x == y then rest else false

-- RB_FIND, RB_INSERT (which refuses a name that is there) and RB_REMOVE by name
unfoldable pub find : ServiceDb → Name → Option ℕ
unfolding same_name
find [] name = none
find (s ∷ db) name = let rest = find db name in if same_name s.name name then some s.id else rest

unfoldable pub remove : ServiceDb → Name → ServiceDb
unfolding same_name
remove [] name = []
remove (s ∷ db) name = let rest = remove db name in if same_name s.name name then db else s ∷ rest

-- A service that is not found is answered by ID_RESV_INVALID.
unfoldable pub lookup_endpoint_by_name : ServiceDb → Name → ℕ
unfolding find
lookup_endpoint_by_name db name = elim (find db (take (kserv_name_len - 1) name)) [
  | none ↦ id_resv_invalid
  | some id ↦ id
]

-- Each handler gives the message that it sends back, and the table.
unfoldable pub handle_lookup_msg : ServiceDb → Message → Name → Message
unfolding lookup_endpoint_by_name
handle_lookup_msg db knmsg key =
    let serv_id = lookup_endpoint_by_name db key in
    if serv_id == id_resv_invalid
    then record knmsg { rc = enoent }
    else record knmsg { rc = ok; id = serv_id }

-- `grants`: whether kmalloc grants the node. The strcpy into the name of the node would write behind it for a key
-- of kserv_name_len bytes or more, which is modelled as a stop; kname_service passes shorter ones.
unfoldable pub handle_register_msg :
    Bool → ServiceDb → Message → Name → ℕ → Exec (Message × ServiceDb)
unfolding find
handle_register_msg grants db knmsg key id =
    kassert (not (id == id_resv_idle))
    >> (if id == id_resv_invalid
        then done (record knmsg { rc = einval }, db)
        else (if not grants
            then done (record knmsg { rc = enomem }, db)
            else (kassert (ltb (length key) kserv_name_len) >> elim (find db key) [
              | none ↦ done (knmsg, (record { name = key; id = id }) ∷ db)
              | some old ↦ done (record knmsg { rc = ebusy }, db)
            ])))

-- The key is shorter than kserv_name_len, as kname_service passes it, so that the strcpy into the local node has room.
unfoldable pub handle_unregister_msg : ServiceDb → Message → Name → Message × ServiceDb
unfolding find remove
handle_unregister_msg db knmsg key = elim (find db key) [
  | none ↦ (record knmsg { rc = enoent }, db)
  | some id ↦ (knmsg, remove db key)
]

-- `name[len] = '\0'`: what the string functions read of the copied bytes
abbrev pub string_of : List ℕ → Name
string_of [] = []
string_of (zero ∷ bytes) = []
string_of (suc c ∷ bytes) = suc c ∷ string_of bytes

-- how many bytes of the name are copied
unfoldable pub copied_len : Message → ℕ
copied_len knmsg = if ltb knmsg.len kserv_name_len then knmsg.len else kserv_name_len - 1

-- One round of the service thread for a message of `src` whose thread was found: `copied` is what
-- vm_copy_in gives for a length, none where it reports -EFAULT.
unfoldable pub serve :
    Bool → (ℕ → Option (List ℕ)) → ServiceDb → Message → ℕ → Exec (Message × ServiceDb)
unfolding copied_len handle_register_msg handle_unregister_msg handle_lookup_msg
serve grants copied db knmsg src = elim (copied (copied_len knmsg)) [
  | none ↦ done (record knmsg { rc = efault }, db)
  | some bytes ↦
      if knmsg.req == 0
      then (let id = if knmsg.id == id_resv_idle then src else knmsg.id in
          handle_register_msg grants db (record knmsg { id = id }) (string_of bytes) id)
      else (if knmsg.req == 1
          then done (handle_unregister_msg db knmsg (string_of bytes))
          else (if knmsg.req == 2
              then done (handle_lookup_msg db knmsg (string_of bytes), db)
              else done (record knmsg { rc = einval }, db)))
]
