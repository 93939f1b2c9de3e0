-- ===== src/Examples/Owning.antt =====
-- Runs in which others than the owner of a file try to change the rights on it.
use network_doc.Base.{
  ℕ, ◌≡◌, refl, ◌≢◌, true, false, none, some, List, [], ◌∷◌, arith, All, CString, codes, ℤ, pos,
}
use network_doc.Message.{Message, success}
use network_doc.NameServer.State.{NameServerState}
use network_doc.NameServer.Permission.{grants, access_read}
use network_doc.NameServer.Files.{handle_read}
use network_doc.NameServer.Dispatch.{Event, run}
use network_doc.NameServer.Ownership.{Owned}
use network_doc.NameServer.Ownership.Runs.{run-Guarded, run-read_refused}
use network_doc.Examples.Memory.{Tables, memory, find_file, find_entry}
use network_doc.Examples.Laws.{memory-DatabaseLaws}
use network_doc.Examples.States.{
  clock, request_message, event, state_with, state_after, tables, notes_row,
}

abbrev attempts : List Event
attempts =
    event 5 (request_message "ADDACCESS" "bob" "notes" "carl|1")
    ∷ event 5 (request_message "DELETE" "carl" "notes" "")
    ∷ event 6 (request_message "CREATE" "carl" "plan" "")
    ∷ []

abbrev opening : NameServerState Tables
opening = state_with []

abbrev closing : NameServerState Tables
closing = state_after opening attempts

attempts-run : run clock memory opening attempts ≡ some closing
unfolding run network_doc.NameServer.Dispatch.handle_message
    network_doc.NameServer.Dispatch.dispatch network_doc.NameServer.Dispatch.request_of
    network_doc.Base.str_eq network_doc.NameServer.Access.handle_addaccess
    network_doc.Format.scan_until network_doc.Format.span network_doc.Format.scan_char_int
    network_doc.Format.scan_int network_doc.Format.scan_sign network_doc.Format.skip_blanks
    network_doc.Format.is_blank network_doc.Format.scan_nat network_doc.Format.is_digit
attempts-run = refl

opening-Owned : Owned memory memory-DatabaseLaws (codes "notes") (codes "alice") tables
unfolding find_file network_doc.Base.str_eq
opening-Owned = (notes_row, refl, refl)

attempts_others : All (λ e. e.msg.username ≢ codes "alice") attempts
attempts_others = ((λ h. cc h), ((λ h. cc h), ((λ h. cc h), tt)))

run-Guarded_example :
    Owned memory memory-DatabaseLaws (codes "notes") (codes "alice") closing.db
    × ((u : CString)
        → find_entry closing.db.entries (codes "notes") u
          ≡ find_entry tables.entries (codes "notes") u)
run-Guarded_example =
    run-Guarded clock memory memory-DatabaseLaws (codes "notes") (codes "alice") opening closing
      attempts attempts_others opening-Owned attempts-run

abbrev carl_reads : Message
carl_reads = request_message "READ" "carl" "notes" ""

carl_not_alice : codes "carl" ≢ codes "alice"
carl_not_alice h = cc h

carl_not_listed : find_entry tables.entries (codes "notes") (codes "carl") ≡ none
unfolding find_entry network_doc.Base.str_eq
carl_not_listed = refl

carl_not_granted :
    (perms : ℤ)
    → find_entry tables.entries (codes "notes") (codes "carl") ≡ some perms
    → grants perms access_read ≡ false
carl_not_granted perms h = cc (carl_not_listed, h)

run-read_refused_example : (handle_read memory closing carl_reads 200).1.error_code ≢ success
run-read_refused_example =
    run-read_refused clock memory memory-DatabaseLaws (codes "notes") (codes "alice") opening
      closing attempts carl_reads 200 attempts_others opening-Owned attempts-run refl carl_not_alice
      carl_not_granted
