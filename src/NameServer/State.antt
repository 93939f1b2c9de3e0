-- ===== src/NameServer/State.antt =====
-- The state of the name server: `NameServerState` of include/nameserver.h. An array with its count is
-- the list of the entries in use.
use network_doc.Base.{ℕ, Bool, List, CString, ℤ}
use network_doc.Trie.{Trie}

pub record StorageServerInfo : Type 0 where
  pub id : ℤ
  pub ip : CString
  pub port : ℤ
  pub is_alive : Bool
  pub last_heartbeat : ℕ
  pub file_count : ℤ

pub record UserInfo : Type 0 where
  pub username : CString
  pub registered_at : ℕ

pub record SentenceLock : Type 0 where
  pub filename : CString
  pub sentence_number : ℤ
  pub username : CString
  pub client_socket : ℕ
  pub locked_at : ℕ

abbrev pub max_storage_servers : ℕ
max_storage_servers = 10

abbrev pub max_users : ℕ
max_users = 100

abbrev pub max_locks : ℕ
max_locks = 100

pub record NameServerState (Db : Type 0) : Type 0 where
  pub db : Db
  pub file_trie : Trie
  pub storage_servers : List StorageServerInfo
  pub users : List UserInfo
  pub locks : List SentenceLock
  pub next_ss_id : ℤ
