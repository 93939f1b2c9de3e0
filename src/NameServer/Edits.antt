-- ===== src/NameServer/Edits.antt =====
-- The requests that lead a client to the storage server of a file: `handle_write` with the sentence
-- locks, the commit in `handle_client`, `handle_undo`, `handle_exec` and `handle_checkpoint`.
-- `none` stands for undefined behaviour.
use network_doc.Base.{
  or_same, ℕ, ◌-◌, String, not, Option, none, some, [], ◌∷◌, ◌++◌, ltb, if◌then◌else◌, length,
  CString, codes, ℤ,
}
use network_doc.Message.{
  max_filename, max_username, file_not_found, permission_denied, locked, invalid_param,
  server_error, ss_not_found, Message, init_message, strncpy, set_message_error, error_response,
  data_response,
}
use network_doc.Trie.{trie_search}
use network_doc.Format.{command_overflows, scan_int, scan_until, show_int}
use network_doc.NameServer.State.{NameServerState, StorageServerInfo, SentenceLock, max_locks}
use network_doc.NameServer.Database.{
  Database, update_modified, select_servers, select_server as select_server_id,
}
use network_doc.NameServer.Permission.{check_permission, access_read, access_write}
use network_doc.NameServer.Servers.{get_ss_by_id, get_replica, server_info, replica_info}
use network_doc.NameServer.Locks.{free, held, taken, check_lock, release_lock}

-- What the lookup of a file's servers ends in.
pub data Location : Type 0 where
  no_statement : Location
  no_row : Location
  no_server : Location
  located : StorageServerInfo → Option StorageServerInfo → Location

-- The response of a handler, with its text for a missing row and for the place found.
unfoldable pub location_response :
    Location → String → (StorageServerInfo → Option StorageServerInfo → CString) → Message
location_response no_statement missing text = error_response server_error "Database error"
location_response no_row missing text = error_response file_not_found missing
location_response no_server missing text =
    error_response ss_not_found "Storage server not available"
location_response (located ss replica) missing text = data_response (text ss replica)

abbrev pub server_and_replica : StorageServerInfo → Option StorageServerInfo → CString
server_and_replica ss replica = server_info ss ++ replica_info replica

abbrev pub sentence_info : ℤ → StorageServerInfo → Option StorageServerInfo → CString
sentence_info number ss replica =
    server_info ss ++ (codes "|SENTENCE:" ++ (show_int number ++ replica_info replica))

abbrev pub new_lock : Message → ℤ → ℕ → ℕ → SentenceLock
new_lock msg number sock now = record {
  filename = strncpy (max_filename - 1) msg.filename;
  sentence_number = number;
  username = strncpy (max_username - 1) msg.username;
  client_socket = sock;
  locked_at = now;
}

abbrev pub locked_text : ℤ → SentenceLock → CString
locked_text number l = strncpy 255 (
    codes "Sentence "
    ++ (show_int number ++ (codes " locked by " ++ (l.username ++ codes " (different session)"))))

abbrev pub checkpoint_info : CString → StorageServerInfo → Option StorageServerInfo → CString
checkpoint_info body ss replica =
    strncpy 65535 (server_info ss ++ (codes "|CMD:" ++ body)) ++ replica_info replica

module _ (D : Database) where
  open D use {Db, prepare, file, set_modified}

  -- SELECT storage_server_id, replica_server_id, and the two lookups.
  unfoldable pub locate : NameServerState Db → CString → Location
  locate s filename =
      if prepare s.db select_servers
      then elim (file s.db filename) [
        | none ↦ no_row
        | some r ↦ elim (get_ss_by_id s.storage_servers r.storage_server_id) [
          | none ↦ no_server
          | some ss ↦ located ss (get_replica s.storage_servers r.replica_server_id)
        ]
      ]
      else no_statement

  abbrev pub write_response : NameServerState Db → CString → ℤ → Message
  write_response s filename number =
      location_response (locate s filename) "File metadata not found" (sentence_info number)

  -- `handle_write` behind the permission check.
  unfoldable pub lock_sentence :
      NameServerState Db → Message → ℤ → ℕ → ℕ → NameServerState Db × Message
  lock_sentence s msg number sock now = elim (check_lock msg.filename number sock s.locks) [
    | taken l ↦ (s, set_message_error init_message locked (locked_text number l))
    | held ↦ (s, write_response s msg.filename number)
    | free ↦
        if ltb (length s.locks) max_locks
        then (let s' = record s { locks = s.locks ++ new_lock msg number sock now ∷ [] } in
            (s', write_response s' msg.filename number))
        else (s, error_response server_error "Lock table full")
  ]

  unfoldable pub handle_write : NameServerState Db → ℕ → Message → ℕ → NameServerState Db × Message
  handle_write s sock msg now = elim (scan_int msg.body) [
    | none ↦ (s, error_response invalid_param "Invalid sentence number")
    | some (number, _) ↦
        if not (trie_search s.file_trie msg.filename)
        then (s, error_response file_not_found "File not found")
        else if not (check_permission D s.db msg.username msg.filename access_write)
        then (s, error_response permission_denied "No write permission")
        else lock_sentence s msg number sock now
  ]

  -- MSG_WRITE_COMMIT. The result of sscanf is not tested: without a number the variable is unset. The
  -- statement's preparation is not tested either, and a NULL statement does nothing.
  unfoldable pub handle_commit :
      NameServerState Db → ℕ → Message → ℕ → Option (NameServerState Db × Message)
  handle_commit s sock msg now = elim (scan_int msg.body) [
    | none ↦ none
    | some (number, _) ↦ some (
      record s {
        locks = release_lock msg.filename number msg.username sock s.locks;
        db =
            if prepare s.db update_modified
            then or_same s.db (set_modified s.db msg.filename now)
            else s.db;
      },
      init_message,
    )
  ]

  unfoldable pub handle_undo : NameServerState Db → Message → NameServerState Db × Message
  handle_undo s msg =
      if not (trie_search s.file_trie msg.filename)
      then (s, error_response file_not_found "File not found")
      else if not (check_permission D s.db msg.username msg.filename access_write)
      then (s, error_response permission_denied "No write permission")
      else (s, location_response (locate s msg.filename) "File not found" server_and_replica)

  -- Its SELECT has one column, and no replica is looked up.
  unfoldable pub exec_response : NameServerState Db → CString → Message
  exec_response s filename =
      if prepare s.db select_server_id
      then elim (file s.db filename) [
        | none ↦ error_response file_not_found "File not found"
        | some r ↦ elim (get_ss_by_id s.storage_servers r.storage_server_id) [
          | none ↦ error_response ss_not_found "Storage server not available"
          | some ss ↦ data_response (server_info ss)
        ]
      ]
      else error_response server_error "Database error"

  unfoldable pub handle_exec : NameServerState Db → Message → NameServerState Db × Message
  handle_exec s msg =
      if not (trie_search s.file_trie msg.filename)
      then (s, error_response file_not_found "File not found")
      else if not (check_permission D s.db msg.username msg.filename access_read)
      then (s, error_response permission_denied "No read permission")
      else (s, exec_response s msg.filename)

  unfoldable pub handle_checkpoint :
      NameServerState Db → Message → Option (NameServerState Db × Message)
  handle_checkpoint s msg = elim (scan_until b'|' msg.body) [
    | none ↦ some (s, error_response invalid_param "Invalid checkpoint command")
    | some (cmd, rest) ↦
        if command_overflows 32 64 (cmd, rest)
        then none
        else some (
            if not (trie_search s.file_trie msg.filename)
            then (s, error_response file_not_found "File not found")
            else if not (check_permission D s.db msg.username msg.filename access_read)
            then (s, error_response permission_denied "No read permission")
            else (
              s,
              location_response (locate s msg.filename) "File not found" (checkpoint_info msg.body),
            ))
  ]
