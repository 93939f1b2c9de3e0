-- ===== src/Examples/Locking.antt =====
-- Runs of the lock protocol.
use network_doc.Base.{
  ℕ, ◌≡◌, refl, ◌<◌, true, ◌≢◌, Option, none, some, List, [], ◌∷◌, arith, CString, codes, ℤ, pos,
  length, All,
}
use network_doc.Message.{Message, IsMessage, success, locked}
use network_doc.Trie.{trie_search}
use network_doc.Format.{scan_int}
use network_doc.NameServer.State.{NameServerState}
use network_doc.NameServer.Permission.{check_permission, access_write}
use network_doc.NameServer.Locks.{free, held, check_lock}
use network_doc.NameServer.Locks.Table.{IsTable, LockStep}
use network_doc.NameServer.Edits.{handle_write, handle_commit, lock_sentence}
use network_doc.NameServer.Dispatch.{Event, run, handle_message}
use network_doc.NameServer.Exclusion.{handle_message-LockStep, run-IsTable, run-held}
use network_doc.NameServer.Sessions.{write-held, write-refused, commit-write}
use network_doc.Examples.Memory.{Tables, memory}
use network_doc.Examples.States.{clock, request_message, event, state_with, alice_lock, state_after}

abbrev bob_writes : Message
bob_writes = request_message "WRITE_LOCK" "bob" "notes" "0"

abbrev bob_commits : Message
bob_commits = request_message "ETIRW" "bob" "notes" "0"

abbrev alice_deletes : Message
alice_deletes = request_message "DELETE" "alice" "notes" ""

bob_writes-IsMessage : IsMessage bob_writes
bob_writes-IsMessage = record {
  type_fits = omega arith;
  username_fits = omega arith;
  filename_fits = omega arith;
  body_fits = omega arith;
  error_msg_fits = omega arith;
}

bob_commits-IsMessage : IsMessage bob_commits
bob_commits-IsMessage = record {
  type_fits = omega arith;
  username_fits = omega arith;
  filename_fits = omega arith;
  body_fits = omega arith;
  error_msg_fits = omega arith;
}

abbrev bob_events : List Event
bob_events = event 5 bob_writes ∷ event 5 bob_commits ∷ []

abbrev locked_state : NameServerState Tables
locked_state = state_with (alice_lock ∷ [])

bob_runs : run clock memory locked_state bob_events ≡ some (state_after locked_state bob_events)
unfolding run handle_message network_doc.NameServer.Dispatch.dispatch
    network_doc.NameServer.Dispatch.request_of network_doc.Base.str_eq handle_commit scan_int
    network_doc.Format.scan_sign network_doc.Format.skip_blanks network_doc.Format.is_blank
    network_doc.Format.scan_nat network_doc.Format.is_digit
bob_runs = refl

run-held_example :
    check_lock (codes "notes") (pos 0) 4 (state_after locked_state bob_events).locks ≡ held
unfolding check_lock network_doc.Base.str_eq
run-held_example =
    run-held clock memory locked_state (state_after locked_state bob_events) bob_events
      (codes "notes") (pos 0) 4
      ((bob_writes-IsMessage, omega arith), ((bob_commits-IsMessage, omega arith), tt)) bob_runs
      refl

locked_state-IsTable : IsTable locked_state.locks
locked_state-IsTable = record { exclusive = (tt, tt); bounded = omega arith }

run-IsTable_example : IsTable (state_after locked_state bob_events).locks
run-IsTable_example =
    run-IsTable clock memory locked_state (state_after locked_state bob_events) bob_events
      (bob_writes-IsMessage, (bob_commits-IsMessage, tt)) bob_runs locked_state-IsTable

-- The state and the response behind a write of bob's to a file with no lock.
abbrev written : NameServerState Tables × Message
written = handle_write memory (state_with []) 5 bob_writes 100

bob_writes_step :
    handle_message clock memory (state_with []) (event 5 bob_writes) ≡ some (written.0, written.1)
unfolding handle_message network_doc.NameServer.Dispatch.dispatch
    network_doc.NameServer.Dispatch.request_of network_doc.Base.str_eq
bob_writes_step = refl

handle_message-LockStep_example : LockStep 5 [] written.0.locks
handle_message-LockStep_example =
    handle_message-LockStep clock memory (state_with []) written.0 (event 5 bob_writes) written.1
      bob_writes-IsMessage bob_writes_step

bob_succeeds : written.1.error_code ≡ success
unfolding handle_write scan_int network_doc.Format.scan_sign network_doc.Format.skip_blanks
    network_doc.Format.is_blank network_doc.Format.scan_nat network_doc.Format.is_digit trie_search
    network_doc.Trie.trie_insert check_permission network_doc.Examples.Memory.find_file
    network_doc.Base.str_eq network_doc.Examples.Memory.find_entry
    network_doc.NameServer.Permission.grants lock_sentence check_lock
    network_doc.NameServer.Edits.location_response network_doc.Format.decimal
    network_doc.Format.scan_digits network_doc.Format.show_int network_doc.Format.show_nat
    network_doc.Message.set_message_error network_doc.NameServer.Edits.locate
    network_doc.NameServer.Servers.get_ss_by_id network_doc.NameServer.Servers.replica_info
    network_doc.NameServer.Servers.server_info network_doc.Trie.insert_node
    network_doc.Trie.search_node
bob_succeeds = refl

bob_permitted :
    check_permission memory (state_with []).db (codes "bob") (codes "notes") access_write ≡ true
unfolding check_permission network_doc.Examples.Memory.find_file network_doc.Base.str_eq
    network_doc.Examples.Memory.find_entry network_doc.NameServer.Permission.grants
bob_permitted = refl

number_read : scan_int (codes "0") ≡ some (pos 0, [])
unfolding scan_int network_doc.Format.scan_sign network_doc.Format.skip_blanks
    network_doc.Format.is_blank network_doc.Format.scan_nat network_doc.Format.is_digit
    network_doc.Format.scan_digits
number_read = refl

write-held_example :
    (check_permission memory (state_with []).db (codes "bob") (codes "notes") access_write ≡ true)
    × (check_lock (codes "notes") (pos 0) 5 written.0.locks ≡ held)
write-held_example =
    write-held memory (state_with []) 5 bob_writes 100 (pos 0) [] bob_writes-IsMessage number_read
      bob_succeeds

alice_holds : check_lock (codes "notes") (pos 0) 4 locked_state.locks ≡ held
unfolding check_lock network_doc.Base.str_eq
alice_holds = refl

notes_found : trie_search locked_state.file_trie (codes "notes") ≡ true
unfolding trie_search network_doc.Trie.trie_insert
notes_found = refl

write-refused_example :
    ((handle_write memory locked_state 5 bob_writes 100).0 ≡ locked_state)
    × ((handle_write memory locked_state 5 bob_writes 100).1.error_code ≡ locked)
write-refused_example =
    write-refused memory locked_state 4 5 bob_writes 100 (pos 0) [] (omega arith) alice_holds
      number_read notes_found bob_permitted

notes_free : check_lock (codes "notes") (pos 0) 5 [] ≡ free
unfolding check_lock
notes_free = refl

commit-write_example :
    (t : NameServerState Tables) × (resp : Message) × (handle_commit memory written.0 5 bob_commits
        120
      ≡ some (t, resp))
    × (resp.error_code ≡ success)
    × (t.locks ≡ [])
commit-write_example =
    commit-write memory (state_with []) 5 bob_writes bob_commits 100 120 (pos 0) [] []
      bob_writes-IsMessage number_read number_read refl refl notes_free bob_succeeds
