-- ===== src/Examples/Keeping.antt =====
-- Runs of the storage server in which a file is left alone, or comes back.
use network_doc.Base.{
  zero, suc, ap, ℕ, ◌≡◌, ◌≢◌, refl, true, Option, none, some, List, [], ◌∷◌, arith, All, CString,
  false, set, codes,
}
use network_doc.Message.{Message, success, init_message}
use network_doc.Format.{contains}
use network_doc.Storage.Host.{CheckpointRow}
use network_doc.Storage.Content.{StorageServerState, get_file_path, get_undo_path}
use network_doc.Storage.Handlers.{validate_basic_request, parse_edit, handle_write}
use network_doc.Storage.Checkpoints.{handle_checkpoint_ops}
use network_doc.Storage.Dispatch.{Arrival, operation_of, serve_all}
use network_doc.Storage.Confinement.{IsSafe, Outside, Validated, serve_all-confined}
use network_doc.Storage.Isolation.Names.{IsName}
use network_doc.Storage.Isolation.Runs.{serve_all-isolated}
use network_doc.Client.Network.{Network, ClientState}
use network_doc.Client.Write.{compose, write_message}
use network_doc.Client.Write.Storing.{write_message-stored}
use network_doc.Text.{join}
use network_doc.Client.Tags.{tagged}
use network_doc.Client.Tags.Revert.{IsTag, revert-checkpoint}
use network_doc.Examples.States.{clock, request_message}
use network_doc.Examples.Storing.{
  File, Tables, host, find_file, host-HostLaws, host-Writable, stored, notes_stored,
}

abbrev State : Type 0
State = StorageServerState (List File) Tables

abbrev arrival : Message → Arrival
arrival m = record { now = 80; msg = m; delivered = λ i. true }

abbrev others : List Arrival
others =
    arrival (request_message "CREATE" "bob" "plan" "")
    ∷ arrival (request_message "WRITE" "bob" "plan" "One line.")
    ∷ arrival (request_message "DELETE" "bob" "plan" "")
    ∷ []

abbrev or_stored : Option State → State
or_stored none = stored
or_stored (some s) = s

abbrev served : State
served = or_stored (serve_all clock host stored others)

others-served : serve_all clock host stored others ≡ some served
unfolding serve_all network_doc.Storage.Dispatch.serve network_doc.Storage.Dispatch.perform
    network_doc.Storage.Dispatch.operation_of network_doc.Base.str_eq handle_write
    network_doc.Storage.Handlers.validate_basic_request contains network_doc.Format.starts_with
    network_doc.Storage.Handlers.parse_edit network_doc.Format.scan_int network_doc.Format.scan_sign
    network_doc.Format.skip_blanks network_doc.Format.is_blank network_doc.Format.scan_nat
    network_doc.Format.is_digit
others-served = refl

plan-IsName : IsName (codes "plan")
unfolding contains network_doc.Format.starts_with
plan-IsName = record { fits = omega arith; no_slash = refl }

notes-IsName : IsName (codes "notes")
unfolding contains network_doc.Format.starts_with
notes-IsName = record { fits = omega arith; no_slash = refl }

others_apart : All (λ a. IsName a.msg.filename × (a.msg.filename ≢ codes "notes")) others
others_apart =
    ((plan-IsName, λ h. cc h), ((plan-IsName, λ h. cc h), ((plan-IsName, λ h. cc h), tt)))

serve_all-isolated_example :
    host.contents served.disk (get_file_path (codes "data") (codes "notes"))
    ≡ host.contents stored.disk (get_file_path (codes "data") (codes "notes"))
serve_all-isolated_example =
    serve_all-isolated clock host host-HostLaws (codes "data") (codes "notes") (omega arith)
      notes-IsName stored served others refl others_apart others-served

abbrev keys : CString
keys = codes "data/../keys"

abbrev attempts : List Arrival
attempts =
    arrival (request_message "WRITE" "bob" "../keys" "none")
    ∷ arrival (request_message "CREATE" "bob" "plan" "")
    ∷ arrival (request_message "DELETE" "bob" "../keys" "")
    ∷ []

abbrev attempted : State
attempted = or_stored (serve_all clock host stored attempts)

attempts-served : serve_all clock host stored attempts ≡ some attempted
unfolding serve_all network_doc.Storage.Dispatch.serve network_doc.Storage.Dispatch.perform
    network_doc.Storage.Dispatch.operation_of network_doc.Base.str_eq handle_write
    network_doc.Storage.Handlers.validate_basic_request contains network_doc.Format.starts_with
attempts-served = refl

attempts-Validated : All (λ a. Validated (operation_of a.msg.type)) attempts
unfolding operation_of network_doc.Base.str_eq
attempts-Validated = (tt, (tt, (tt, tt)))

abbrev char_at : ℕ → CString → ℕ
char_at n [] = 0
char_at zero (c ∷ s) = c
char_at (suc n) (c ∷ s) = char_at n s

keys-file_ne : (f : CString) → IsSafe f → get_file_path (codes "data") f ≢ keys
unfolding get_file_path contains network_doc.Format.starts_with
keys-file_ne [] safe h = omega (arith, ap (char_at 5) h)
keys-file_ne (c ∷ []) safe h = omega (arith, ap (char_at 6) h)
keys-file_ne (c ∷ d ∷ f) safe h =
    let first : c ≡ b'.' = ap (char_at 5) h in
    let second : d ≡ b'.' = ap (char_at 6) h in ground (arith, safe.no_dots, first, second)

keys-undo_ne : (f : CString) → get_undo_path (codes "data") f ≢ keys
unfolding get_undo_path
keys-undo_ne f h = omega (arith, ap (char_at 5) h)

keys-Outside : Outside (codes "data") keys
keys-Outside f safe = (keys-file_ne f safe, keys-undo_ne f)

serve_all-confined_example : host.contents attempted.disk keys ≡ host.contents stored.disk keys
serve_all-confined_example =
    serve_all-confined clock host host-HostLaws (codes "data") keys keys-Outside stored attempted
      attempts refl attempts-Validated attempts-served

abbrev checkpoint_message : Message
checkpoint_message = tagged (codes "bob") "CHECKPOINT" "CREATE" (codes "notes") (codes "v1")

abbrev revert_message : Message
revert_message = tagged (codes "bob") "REVERT" "REVERT" (codes "notes") (codes "v1")

abbrev change : Message
change = request_message "WRITE" "bob" "notes" "Gone."

abbrev or_first : Option (State × Message) → State × Message
or_first none = (stored, init_message)
or_first (some p) = p

abbrev marked : State × Message
marked = or_first (handle_checkpoint_ops host clock stored checkpoint_message 50)

abbrev changed : State × Message
changed = or_first (handle_write host marked.0 change 60)

marked_answered :
    handle_checkpoint_ops host clock stored checkpoint_message 50 ≡ some (marked.0, marked.1)
unfolding handle_checkpoint_ops network_doc.Format.scan_until network_doc.Format.span
    network_doc.Format.command_overflows network_doc.Format.scan_char_word
    network_doc.Format.scan_word network_doc.Format.skip_blanks network_doc.Format.is_blank
    network_doc.Storage.Checkpoints.checkpoint_command network_doc.Base.str_eq
marked_answered = refl

change_answered : handle_write host marked.0 change 60 ≡ some (changed.0, changed.1)
unfolding handle_write network_doc.Storage.Handlers.validate_basic_request contains
    network_doc.Format.starts_with network_doc.Storage.Handlers.parse_edit
    network_doc.Format.scan_int network_doc.Format.scan_sign network_doc.Format.skip_blanks
    network_doc.Format.is_blank network_doc.Format.scan_nat network_doc.Format.is_digit
change_answered = refl

insertable : (db : Tables) (r : CheckpointRow) → host.insert_checkpoint db r ≢ none
insertable db r h = absurd (ground (arith, h))

v1-IsTag : IsTag (codes "v1")
unfolding network_doc.Format.is_blank
v1-IsTag = record {
  some_character = omega arith;
  fits = omega arith;
  no_blank = (refl, (refl, tt));
}

revert-checkpoint_example :
    (q : State × Message) × (handle_checkpoint_ops host clock changed.0 revert_message 70 ≡ some q)
    × ((q.1.error_code ≡ success)
        × (host.contents q.0.disk (get_file_path (codes "data") (codes "notes"))
            ≡ some (codes "Hi you.")))
unfolding find_file
revert-checkpoint_example =
    revert-checkpoint clock host host-HostLaws host-Writable insertable stored marked.0 changed.0
      (codes "bob") (codes "bob") (codes "notes") (codes "v1") (codes "Hi you.") change marked.1
      changed.1 50 60 70 (omega arith) notes-IsName v1-IsTag (omega arith) notes_stored refl
      marked_answered refl change_answered

abbrev silent : Network
silent = record {
  World = ℕ;
  Socket = ℕ;
  connect = λ w ip port. (w, none);
  send = λ w sock m. (w, false);
  receive = λ w sock. (w, none);
  close = λ w sock. w;
  popen = λ w command. (w, none);
}

abbrev bob : ClientState ℕ
bob = record { nm_socket = 0; username = codes "bob" }

abbrev greeting : List CString
greeting = codes "Hello" ∷ codes "you." ∷ []

greeting_composed : compose (codes "Hi you." ∷ []) 0 greeting ≡ some (codes "Hello you.")
unfolding compose join network_doc.Text.join_loop
greeting_composed = refl

greeting_no_edit : parse_edit (codes "Hello you.") ≡ none
unfolding parse_edit network_doc.Format.scan_int network_doc.Format.scan_sign
    network_doc.Format.skip_blanks network_doc.Format.is_blank network_doc.Format.scan_nat
    network_doc.Format.is_digit
greeting_no_edit = refl

greeting_valid :
    validate_basic_request (write_message silent bob (codes "notes") (codes "Hello you.")) ≡ true
unfolding validate_basic_request contains network_doc.Format.starts_with
greeting_valid = refl

write_message-stored_example :
    (q : State × Message) × (handle_write host stored
        (write_message silent bob (codes "notes") (codes "Hello you."))
        90
      ≡ some q)
    × ((q.1.error_code ≡ success)
        × (host.contents q.0.disk (get_file_path (codes "data") (codes "notes"))
            ≡ some (join (set (codes "Hi you." ∷ []) 0 (join greeting)))))
write_message-stored_example =
    write_message-stored silent host host-HostLaws host-Writable bob stored (codes "notes")
      (codes "Hello you.") (codes "Hi you." ∷ []) greeting 0 90 greeting_composed greeting_no_edit
      greeting_valid
