-- ===== src/Examples/Counting.antt =====
-- A run from the start in which two storage servers register and a file is created: the numbers of
-- the servers, and the catalogue.
use network_doc.Base.{
  ℕ, suc, ◌≡◌, refl, true, Option, some, is_some, IsBytes, List, [], ◌∷◌, arith, get_elem?, CString,
  codes, pos,
}
use network_doc.NameServer.State.{NameServerState, StorageServerInfo}
use network_doc.NameServer.Servers.{get_ss_by_id}
use network_doc.NameServer.Dispatch.{Event, run}
use network_doc.NameServer.Start.{initial_state}
use network_doc.NameServer.Numbering.{IsNumbered}
use network_doc.NameServer.Numbering.Runs.{run-IsNumbered}
use network_doc.Examples.Memory.{Tables, memory, find_file}
use network_doc.Examples.Laws.{memory-DatabaseLaws, memory-DeletesSucceed}
use network_doc.Trie.{trie_search}
use network_doc.NameServer.Catalogue.{listed}
use network_doc.NameServer.Catalogue.Steps.Runs.{run-indexed}
use network_doc.Examples.States.{clock, request_message, event, tables, state_after}

abbrev requests : List Event
requests =
    event 5 (request_message "REGISTER_SS" "" "" "10.0.0.1:9001")
    ∷ event 6 (request_message "REGISTER_SS" "" "" "10.0.0.2:9002")
    ∷ event 7 (request_message "CREATE" "bob" "plan" "")
    ∷ []

abbrev rows : Option (List CString)
rows = some (codes "notes" ∷ [])

abbrev behind : NameServerState Tables
behind = state_after (initial_state tables rows) requests

requests-run : run clock memory (initial_state tables rows) requests ≡ some behind
unfolding run network_doc.NameServer.Dispatch.handle_message
    network_doc.NameServer.Dispatch.dispatch network_doc.NameServer.Dispatch.request_of
    network_doc.Base.str_eq network_doc.NameServer.Register.handle_register_ss
    network_doc.Format.scan_until network_doc.Format.span network_doc.Format.scan_char_int
    network_doc.Format.scan_int network_doc.Format.scan_sign network_doc.Format.skip_blanks
    network_doc.Format.is_blank network_doc.Format.scan_nat network_doc.Format.is_digit
    initial_state
requests-run = refl

run-IsNumbered_example :
    IsNumbered behind
    × ((i : ℕ) (x : StorageServerInfo)
        → get_elem? behind.storage_servers i ≡ some x
        → x.is_alive ≡ true
        → get_ss_by_id behind.storage_servers (pos (suc i)) ≡ some x)
run-IsNumbered_example = run-IsNumbered clock memory tables rows behind requests requests-run

notes-IsBytes : IsBytes (codes "notes")
notes-IsBytes = (omega arith, (omega arith, (omega arith, (omega arith, (omega arith, tt)))))

plan-IsBytes : IsBytes (codes "plan")
plan-IsBytes = (omega arith, (omega arith, (omega arith, (omega arith, tt))))

names-loaded :
    (k : CString) → IsBytes k → listed (codes "notes" ∷ []) k ≡ is_some (find_file tables.files k)
unfolding listed find_file
names-loaded k b = ground arith

run-indexed_example :
    trie_search behind.file_trie (codes "plan") ≡ is_some (find_file behind.db.files (codes "plan"))
run-indexed_example =
    run-indexed clock memory memory-DatabaseLaws memory-DeletesSucceed tables (codes "notes" ∷ [])
      behind requests (notes-IsBytes, tt) names-loaded (tt, (tt, (plan-IsBytes, tt))) requests-run
      (codes "plan") plan-IsBytes
