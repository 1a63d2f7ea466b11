-- ===== src/NameService/Tests.antt =====
-- Runs of the name service at concrete inputs.
use yatos.Prelude.{◌≡◌, refl, arith, true, if◌then◌else◌, [], ◌∷◌, none, some, ok, done}
use yatos.NameService.Table.{
  Name, ServiceDb, Message, same_name, find, handle_register_msg, handle_unregister_msg, serve,
}
use yatos.NameService.Registration.{
  IsUnique, handle_register_msg-Registers, handle_unregister_msg-Removes,
}

-- a table with the name "vm" for endpoint 5
abbrev vm_name : Name
vm_name = 118 ∷ 109 ∷ []

abbrev vm_table : ServiceDb
vm_table = (record { name = vm_name; id = 5 }) ∷ []

vm_table-IsUnique : IsUnique vm_table
unfolding find
vm_table-IsUnique = (refl, tt)

abbrev plain : Message
plain = record { req = 0; len = 2; id = 0; rc = ok }

handle_register_msg-Registers_example :
    (reply : Message) × (db' : ServiceDb) × (handle_register_msg true vm_table plain (112 ∷ []) 7
      ≡ done (reply, db'))
    × IsUnique db'
    × ((reply ≡ plain)
        × ((k : Name) → find db' k ≡ (if same_name (112 ∷ []) k then some 7 else find vm_table k)))
unfolding find same_name
handle_register_msg-Registers_example =
    handle_register_msg-Registers true vm_table plain (112 ∷ []) 7 vm_table-IsUnique refl
      (omega arith)

handle_unregister_msg-Removes_example :
    (reply : Message) × (db' : ServiceDb) × (handle_unregister_msg vm_table plain vm_name
      ≡ (reply, db'))
    × IsUnique db'
    × ((k : Name) → find db' k ≡ (if same_name vm_name k then none else find vm_table k))
    × (reply ≡ plain)
unfolding find same_name
handle_unregister_msg-Removes_example =
    handle_unregister_msg-Removes vm_table plain vm_name vm_table-IsUnique

-- A request to register for endpoint 0 registers the sender; a second one is refused.
registers_sender :
    serve true (λ n. some (112 ∷ 0 ∷ [])) [] plain 3
    ≡ done (record plain { id = 3 }, (record { name = 112 ∷ []; id = 3 }) ∷ [])
unfolding serve
registers_sender = refl
