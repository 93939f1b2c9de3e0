-- ===== src/Examples/States.antt =====
-- The states and messages of the runs: one storage server, a file of alice's that bob may write.
use network_doc.Base.{
  ℕ, true, false, none, some, List, [], ◌∷◌, CString, codes, String, pos, negsuc,
}
use network_doc.Message.{Message, success}
use network_doc.Trie.{trie_create, trie_insert}
use network_doc.NameServer.State.{NameServerState, StorageServerInfo, SentenceLock}
use network_doc.NameServer.Database.{FileRow}
use network_doc.NameServer.Dispatch.{Event, run}
use network_doc.Examples.Memory.{Tables, memory}

abbrev pub clock : ℕ → CString
clock t = codes "now"

abbrev pub request_message : String → String → String → String → Message
request_message type user file text = record {
  type = codes type;
  username = codes user;
  filename = codes file;
  body = codes text;
  error_code = success;
  error_msg = [];
}

abbrev pub event : ℕ → Message → Event
event sock m = record { sock = sock; now = 100; msg = m }

abbrev pub server : StorageServerInfo
server = record {
  id = pos 0;
  ip = codes "10.0.0.1";
  port = pos 9001;
  is_alive = true;
  last_heartbeat = 1;
  file_count = pos 1;
}

abbrev pub notes_row : FileRow
notes_row = record {
  filename = codes "notes";
  owner = codes "alice";
  storage_server_id = pos 0;
  replica_server_id = negsuc 0;
  word_count = pos 0;
  sentence_count = pos 0;
  created_at = 1;
  modified_at = 1;
  accessed_at = 1;
  is_folder = false;
}

abbrev pub tables : Tables
tables = record {
  files = notes_row ∷ [];
  entries = record { filename = codes "notes"; username = codes "bob"; permissions = pos 3 } ∷ [];
  requests = [];
}

abbrev pub alice_lock : SentenceLock
alice_lock = record {
  filename = codes "notes";
  sentence_number = pos 0;
  username = codes "alice";
  client_socket = 4;
  locked_at = 90;
}

-- The state with a list of locks.
abbrev pub state_with : List SentenceLock → NameServerState Tables
state_with locks = record {
  db = tables;
  file_trie = trie_insert trie_create (codes "notes");
  storage_servers = server ∷ [];
  users =
      record { username = codes "alice"; registered_at = 1 }
      ∷ record { username = codes "bob"; registered_at = 2 }
      ∷ [];
  locks = locks;
  next_ss_id = pos 1;
}

-- The state after a run, or the first state where the run has undefined behaviour.
abbrev pub state_after : NameServerState Tables → List Event → NameServerState Tables
state_after s events = elim (run clock memory s events) [ none ↦ s | some t ↦ t ]
