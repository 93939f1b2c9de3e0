-- ===== src/Examples/Rights.antt =====
-- Runs of the catalogue, of the access lists, of the listings and of the choice of a server.
use network_doc.Base.{
  ℕ, ◌≡◌, refl, ◌≢◌, true, none, some, List, [], ◌∷◌, ◌++◌, ◌&&◌, arith, if◌then◌else◌, codes,
  str_eq, get_elem?, pos, IsBytes,
}
use network_doc.Message.{Message, init_message, success, strncpy}
use network_doc.Format.{scan_until, scan_char_int}
use network_doc.Trie.{trie_search, trie_create, trie_insert}
use network_doc.Trie.Search.{search-insert, search-create}
use network_doc.NameServer.State.{NameServerState, StorageServerInfo}
use network_doc.NameServer.Database.{FileRow}
use network_doc.NameServer.Permission.{check_permission, is_owner, access_read}
use network_doc.NameServer.Servers.{select_server, select_replica, server_info}
use network_doc.NameServer.Servers.Choice.{NoFewer, select_server_lem}
use network_doc.NameServer.Files.{handle_read, read_server}
use network_doc.NameServer.Register.{user_exists, list_loop}
use network_doc.NameServer.Access.{handle_addaccess, handle_remaccess, trim_in_place, requests_loop}
use network_doc.NameServer.Access.Grants.{
  MayAccess, check_permission-MayAccess, read-MayAccess, addaccess-permissions,
  remaccess-permissions,
}
use network_doc.NameServer.Views.{view_text, view_loop}
use network_doc.NameServer.Views.Bounds.{Fits, listings-Fits}
use network_doc.NameServer.Dispatch.{Event, run}
use network_doc.NameServer.Catalogue.{Agrees}
use network_doc.NameServer.Catalogue.Steps.Runs.{run-Agrees}
use network_doc.Examples.Memory.{Tables, memory, find_file, find_entry}
use network_doc.Examples.Laws.{memory-DatabaseLaws, memory-DeletesSucceed}
use network_doc.Examples.States.{
  clock, request_message, event, state_with, state_after, server, notes_row, tables,
}

abbrev start : NameServerState Tables
start = state_with []

abbrev events : List Event
events =
    event 4 (request_message "DELETE" "alice" "notes" "")
    ∷ event 5 (request_message "CREATE" "bob" "plan" "")
    ∷ []

notes-IsBytes : IsBytes (codes "notes")
notes-IsBytes = (omega arith, (omega arith, (omega arith, (omega arith, (omega arith, tt)))))

plan-IsBytes : IsBytes (codes "plan")
plan-IsBytes = (omega arith, (omega arith, (omega arith, (omega arith, tt))))

start-Agrees : Agrees memory memory-DatabaseLaws start
unfolding find_file
start-Agrees k b =
    rw (search-insert trie_create (codes "notes") k notes-IsBytes b)
      (unfold trie_search in ground (arith, search-create k))

events-run : run clock memory start events ≡ some (state_after start events)
unfolding run network_doc.NameServer.Dispatch.handle_message
    network_doc.NameServer.Dispatch.dispatch network_doc.NameServer.Dispatch.request_of str_eq
events-run = refl

run-Agrees_example : Agrees memory memory-DatabaseLaws (state_after start events)
run-Agrees_example =
    run-Agrees clock memory memory-DatabaseLaws memory-DeletesSucceed start
      (state_after start events) events (notes-IsBytes, (plan-IsBytes, tt)) events-run start-Agrees

bob_permitted_read : check_permission memory tables (codes "bob") (codes "notes") access_read ≡ true
unfolding check_permission find_file str_eq find_entry network_doc.NameServer.Permission.grants
bob_permitted_read = refl

check_permission-MayAccess_example :
    MayAccess memory tables (codes "bob") (codes "notes") access_read
check_permission-MayAccess_example =
    check_permission-MayAccess memory tables (codes "bob") (codes "notes") access_read
      bob_permitted_read

abbrev bob_reads : Message
bob_reads = request_message "READ" "bob" "notes" ""

bob_read_succeeds : (handle_read memory start bob_reads 100).1.error_code ≡ success
unfolding handle_read trie_search trie_insert check_permission find_file str_eq find_entry
    network_doc.NameServer.Permission.grants network_doc.NameServer.Files.read_response read_server
    network_doc.NameServer.Servers.get_ss_by_id
bob_read_succeeds = refl

read-MayAccess_example :
    MayAccess memory tables (codes "bob") (codes "notes") access_read
    × ((r : FileRow) × (ss : StorageServerInfo) × (find_file tables.files (codes "notes") ≡ some r)
        × (read_server (server ∷ []) r ≡ some ss)
        × ((handle_read memory start bob_reads 100).1.body ≡ strncpy 65535 (server_info ss)))
read-MayAccess_example = read-MayAccess memory start bob_reads 100 bob_read_succeeds

abbrev alice_adds : Message
alice_adds = request_message "ADDACCESS" "alice" "notes" "bob|1"

-- The state and the response behind a grant.
abbrev added : NameServerState Tables × Message
added = elim (handle_addaccess memory start alice_adds) [
  | none ↦ (start, init_message)
  | some p ↦ p
]

target_read : scan_until b'|' (codes "bob|1") ≡ some (codes "bob", codes "|1")
unfolding scan_until network_doc.Format.span
target_read = refl

permission_read : scan_char_int b'|' (codes "|1") ≡ some (pos 1, [])
unfolding scan_char_int network_doc.Format.scan_int network_doc.Format.scan_sign
    network_doc.Format.skip_blanks network_doc.Format.is_blank network_doc.Format.scan_nat
    network_doc.Format.is_digit network_doc.Format.scan_digits
permission_read = refl

alice_added : handle_addaccess memory start alice_adds ≡ some (added.0, added.1)
unfolding handle_addaccess scan_until network_doc.Format.span scan_char_int
    network_doc.Format.scan_int network_doc.Format.scan_sign network_doc.Format.skip_blanks
    network_doc.Format.is_blank network_doc.Format.scan_nat network_doc.Format.is_digit
alice_added = refl

alice_add_succeeds : added.1.error_code ≡ success
unfolding handle_addaccess scan_until network_doc.Format.span scan_char_int
    network_doc.Format.scan_int network_doc.Format.scan_sign network_doc.Format.skip_blanks
    network_doc.Format.is_blank network_doc.Format.scan_nat network_doc.Format.is_digit
    network_doc.NameServer.Access.add_access trie_search trie_insert is_owner find_file str_eq
    user_exists network_doc.Format.scan_digits network_doc.Message.set_message_error
    network_doc.NameServer.Access.grant_access network_doc.Trie.insert_node
    network_doc.Trie.search_node
alice_add_succeeds = refl

addaccess-permissions_example :
    (is_owner memory tables (codes "alice") (codes "notes") ≡ true)
    × (user_exists start.users (codes "bob") ≡ true)
    × (find_entry added.0.db.entries (codes "notes") (codes "bob") ≡ (
        if str_eq (codes "notes") (codes "notes") && str_eq (codes "bob") (codes "bob")
        then some (pos 1)
        else find_entry tables.entries (codes "notes") (codes "bob")))
addaccess-permissions_example =
    addaccess-permissions memory memory-DatabaseLaws start added.0 added.1 alice_adds (codes "bob")
      (codes "|1") [] (codes "notes") (codes "bob") (pos 1) target_read permission_read alice_added
      alice_add_succeeds

abbrev alice_removes : Message
alice_removes = request_message "REMACCESS" "alice" "notes" "bob "

alice_remove_succeeds : (handle_remaccess memory start alice_removes).1.error_code ≡ success
unfolding handle_remaccess trie_search trie_insert is_owner find_file str_eq
    network_doc.NameServer.Access.revoke_from
alice_remove_succeeds = refl

remaccess-permissions_example :
    (is_owner memory tables (codes "alice") (codes "notes") ≡ true)
    × (find_entry
          (handle_remaccess memory start alice_removes).0.db.entries
          (codes "notes")
          (codes "bob")
        ≡ (if str_eq (codes "notes") (codes "notes")
              && str_eq (trim_in_place (strncpy 63 (codes "bob "))) (codes "bob")
            then none
            else find_entry tables.entries (codes "notes") (codes "bob")))
remaccess-permissions_example =
    remaccess-permissions memory memory-DatabaseLaws start alice_removes (codes "notes")
      (codes "bob") alice_remove_succeeds

abbrev idle_server : StorageServerInfo
idle_server = record server { id = pos 1; file_count = pos 0 }

idle_chosen : select_server (server ∷ idle_server ∷ []) ≡ some (1, idle_server)
unfolding select_server network_doc.NameServer.Servers.least_loop
idle_chosen = refl

select_server_lem_example :
    (get_elem? (server ∷ idle_server ∷ []) 1 ≡ some idle_server)
    × NoFewer (pos 0) (server ∷ idle_server ∷ [])
    × ((r : StorageServerInfo)
        → select_replica (server ∷ idle_server ∷ []) 0 1 ≡ some r
        → (j : ℕ) × (get_elem? (server ∷ idle_server ∷ []) j ≡ some r)
          × (j ≢ 1)
          × (r.is_alive ≡ true))
select_server_lem_example = select_server_lem (server ∷ idle_server ∷ []) 1 idle_server idle_chosen

listings-Fits_example :
    Fits (view_text (view_loop clock true (notes_row ∷ []) ([], 0)))
    × Fits (list_loop start.users (codes "Registered Users:" ++ 10 ∷ []))
    × Fits (requests_loop [] (codes "Pending Access Requests:" ++ 10 ∷ []))
listings-Fits_example = listings-Fits clock true (notes_row ∷ []) start.users []
