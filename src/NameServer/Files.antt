-- ===== src/NameServer/Files.antt =====
-- `handle_create`, `handle_createfolder`, `handle_read` and `handle_delete` of src/nameserver/. A
-- handler returns the new state and the response that it sends; the mutex makes it one step.
use network_doc.Base.{
  or_same, ℕ, Bool, true, false, not, Option, none, some, List, [], ◌++◌, if◌then◌else◌, CString,
  codes, str_eq, ℤ, pos, negsuc,
}
use network_doc.Message.{
  file_not_found, file_exists, permission_denied, server_error, not_owner, ss_not_found, Message,
  error_response, data_response,
}
use network_doc.Trie.{trie_insert, trie_search, trie_delete}
use network_doc.NameServer.State.{NameServerState, StorageServerInfo}
use network_doc.NameServer.Database.{
  Database, FileRow, insert_file, insert_folder, delete_file, delete_access, update_accessed,
  select_servers, select_owner_servers,
}
use network_doc.NameServer.Permission.{check_permission, access_read}
use network_doc.NameServer.Servers.{
  get_ss_by_id, get_replica, select_server, select_replica, count_file, uncount_file, server_info,
  replica_info,
}

-- The row that `handle_create` inserts; the columns that it does not name have their defaults.
abbrev pub new_file : Message → ℤ → ℤ → Bool → ℕ → FileRow
new_file msg ss_id replica_id is_folder now = record {
  filename = msg.filename;
  owner = msg.username;
  storage_server_id = ss_id;
  replica_server_id = replica_id;
  word_count = pos 0;
  sentence_count = pos 0;
  created_at = now;
  modified_at = now;
  accessed_at = now;
  is_folder = is_folder;
}

abbrev pub replica_id_of : Option StorageServerInfo → ℤ
replica_id_of none = negsuc 0
replica_id_of (some s) = s.id

-- The state after a row has been inserted for a file on the server at an index.
abbrev pub file_added : {Db : Type 0} → NameServerState Db → Db → CString → ℕ → NameServerState Db
file_added s db' filename idx = record s {
  db = db';
  file_trie = trie_insert s.file_trie filename;
  storage_servers = count_file s.storage_servers idx;
}

-- The primary, or else the replica.
unfoldable pub read_server : List StorageServerInfo → FileRow → Option StorageServerInfo
read_server servers r = elim (get_ss_by_id servers r.storage_server_id) [
  | none ↦ get_replica servers r.replica_server_id
  | some ss ↦ some ss
]

abbrev pub delete_info : List StorageServerInfo → ℤ → ℤ → CString
delete_info servers ss_id replica_id = elim (get_ss_by_id servers ss_id) [
  | none ↦ []
  | some ss ↦ server_info ss ++ replica_info (get_replica servers replica_id)
]

module _ (D : Database) where
  open D use {Db, prepare, file, insert, delete, clear_access, set_accessed}

  unfoldable pub create_on :
      NameServerState Db
      → Message
      → ℕ
      → ℕ × StorageServerInfo
      → Option StorageServerInfo
      → NameServerState Db × Message
  create_on s msg now (idx, ss) replica =
      if prepare s.db insert_file
      then elim (insert s.db (new_file msg ss.id (replica_id_of replica) false now)) [
        | none ↦ (s, error_response server_error "Failed to create file metadata")
        | some db' ↦ (
          file_added s db' msg.filename idx,
          data_response (server_info ss ++ replica_info replica),
        )
      ]
      else (s, error_response server_error "Database error")

  unfoldable pub handle_create : NameServerState Db → Message → ℕ → NameServerState Db × Message
  handle_create s msg now =
      if trie_search s.file_trie msg.filename
      then (s, error_response file_exists "File already exists")
      else elim (select_server s.storage_servers) [
        | none ↦ (s, error_response ss_not_found "No storage servers available")
        | some (idx, ss) ↦ create_on s msg now (idx, ss) (select_replica s.storage_servers 0 idx)
      ]

  -- A folder's replica column is NULL, which sqlite3_column_int reads as 0.
  unfoldable pub create_folder_on :
      NameServerState Db → Message → ℕ → ℕ × StorageServerInfo → NameServerState Db × Message
  create_folder_on s msg now (idx, ss) =
      if prepare s.db insert_folder
      then elim (insert s.db (new_file msg ss.id (pos 0) true now)) [
        | none ↦ (s, error_response server_error "Failed to create folder")
        | some db' ↦ (
          file_added s db' msg.filename idx,
          data_response (codes "Folder created: " ++ msg.filename),
        )
      ]
      else (s, error_response server_error "Database error")

  unfoldable pub handle_createfolder :
      NameServerState Db → Message → ℕ → NameServerState Db × Message
  handle_createfolder s msg now =
      if trie_search s.file_trie msg.filename
      then (s, error_response file_exists "Folder already exists")
      else elim (select_server s.storage_servers) [
        | none ↦ (s, error_response ss_not_found "No storage servers available")
        | some best ↦ create_folder_on s msg now best
      ]

  unfoldable pub read_response : NameServerState Db → CString → Message
  read_response s filename =
      if prepare s.db select_servers
      then elim (file s.db filename) [
        | none ↦ error_response file_not_found "File metadata not found"
        | some r ↦ elim (read_server s.storage_servers r) [
          | none ↦ error_response ss_not_found "Storage server not available"
          | some ss ↦ data_response (server_info ss)
        ]
      ]
      else error_response server_error "Database error"

  -- The UPDATE behind the response.
  abbrev pub touch_accessed : Db → CString → ℕ → Db
  touch_accessed db filename now =
      if prepare db update_accessed then or_same db (set_accessed db filename now) else db

  unfoldable pub handle_read : NameServerState Db → Message → ℕ → NameServerState Db × Message
  handle_read s msg now =
      if not (trie_search s.file_trie msg.filename)
      then (s, error_response file_not_found "File not found")
      else if not (check_permission D s.db msg.username msg.filename access_read)
      then (s, error_response permission_denied "No read permission")
      else (record s { db = touch_accessed s.db msg.filename now }, read_response s msg.filename)

  -- The two DELETEs.
  abbrev pub delete_rows : Db → CString → Db
  delete_rows db filename =
      let db' = if prepare db delete_file then or_same db (delete db filename) else db in
      if prepare db' delete_access then or_same db' (clear_access db' filename) else db'

  unfoldable pub remove_file : NameServerState Db → CString → ℤ → ℤ → NameServerState Db × Message
  remove_file s filename ss_id replica_id =
      let servers = uncount_file s.storage_servers ss_id in
      (
        record s {
          db = delete_rows s.db filename;
          file_trie = trie_delete s.file_trie filename;
          storage_servers = servers;
        },
        data_response (delete_info servers ss_id replica_id),
      )

  unfoldable pub handle_delete : NameServerState Db → Message → NameServerState Db × Message
  handle_delete s msg =
      if not (trie_search s.file_trie msg.filename)
      then (s, error_response file_not_found "File not found")
      else if not (prepare s.db select_owner_servers)
      then (s, error_response server_error "Database error")
      else elim (file s.db msg.filename) [
        | none ↦ remove_file s msg.filename (negsuc 0) (negsuc 0)
        | some r ↦
            if str_eq r.owner msg.username
            then remove_file s msg.filename r.storage_server_id r.replica_server_id
            else (s, error_response not_owner "Only owner can delete file")
      ]
