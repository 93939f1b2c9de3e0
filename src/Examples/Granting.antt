-- ===== src/Examples/Granting.antt =====
-- A right on a file of alice's that the client gives to bob.
use network_doc.Base.{◌≡◌, refl, false, none, some, [], arith, codes, str_eq}
use network_doc.Message.{Message, success, init_message}
use network_doc.NameServer.State.{NameServerState}
use network_doc.NameServer.Permission.{access_read, access_write, owned_by, check_permission}
use network_doc.NameServer.Access.{handle_addaccess}
use network_doc.Client.Rights.{flag_permissions, grant_message}
use network_doc.Client.Rights.Grants.{IsUser, addaccess-check_permission}
use network_doc.Examples.Memory.{Tables, memory, find_file}
use network_doc.Examples.Laws.{memory-DatabaseLaws}
use network_doc.Examples.States.{state_with, tables}

abbrev opening : NameServerState Tables
opening = state_with []

abbrev bob_may_read : Message
bob_may_read = grant_message (codes "alice") (codes "notes") (codes "bob") 1

abbrev granted : NameServerState Tables × Message
granted = elim (handle_addaccess memory opening bob_may_read) [
  | none ↦ (opening, init_message)
  | some p ↦ p
]

grant_answered : handle_addaccess memory opening bob_may_read ≡ some (granted.0, granted.1)
unfolding handle_addaccess network_doc.Format.scan_until network_doc.Format.span
    network_doc.Format.scan_char_int network_doc.Format.scan_int network_doc.Format.scan_sign
    network_doc.Format.skip_blanks network_doc.Format.show_nat network_doc.Format.decimal
    network_doc.Format.is_blank network_doc.Format.scan_nat network_doc.Format.is_digit
grant_answered = refl

grant_succeeds : granted.1.error_code ≡ success
unfolding handle_addaccess network_doc.Format.scan_until network_doc.Format.span
    network_doc.Format.scan_char_int network_doc.Format.scan_int network_doc.Format.scan_sign
    network_doc.Format.skip_blanks network_doc.Format.show_nat network_doc.Format.decimal
    network_doc.Format.is_blank network_doc.Format.scan_nat network_doc.Format.is_digit
    network_doc.NameServer.Access.add_access network_doc.Trie.trie_search
    network_doc.Trie.trie_insert network_doc.NameServer.Permission.is_owner find_file str_eq
    network_doc.Format.scan_digits network_doc.Message.set_message_error
    network_doc.NameServer.Access.grant_access network_doc.NameServer.Register.user_exists
    network_doc.Trie.insert_node network_doc.Trie.search_node
grant_succeeds = refl

bob-IsUser : IsUser (codes "bob")
bob-IsUser = record { some_character = omega arith; no_bar = (refl, (refl, (refl, tt))) }

read_flag : flag_permissions (codes "-R") ≡ some 1
unfolding flag_permissions str_eq
read_flag = refl

bob_no_owner : owned_by (memory.file tables (codes "notes")) (codes "bob") ≡ false
unfolding find_file str_eq
bob_no_owner = refl

addaccess-check_permission_example :
    (check_permission memory granted.0.db (codes "bob") (codes "notes") access_read
      ≡ str_eq (codes "-R") (codes "-R"))
    × (check_permission memory granted.0.db (codes "bob") (codes "notes") access_write
        ≡ str_eq (codes "-R") (codes "-W"))
addaccess-check_permission_example =
    addaccess-check_permission memory memory-DatabaseLaws opening granted.0 granted.1
      (codes "alice") (codes "notes") (codes "bob") (codes "-R") 1 (omega arith) bob-IsUser
      read_flag bob_no_owner grant_answered grant_succeeds refl
