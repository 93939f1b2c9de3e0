-- ===== src/NameServer/Start.antt =====
-- The state that `main` of src/nameserver/nm_main.c starts with.
use network_doc.Base.{Option, List, [], CString, pos}
use network_doc.Trie.{trie_create}
use network_doc.NameServer.State.{NameServerState}
use network_doc.NameServer.Catalogue.{load_files_from_db}

module _ {Db : Type 0} where
  -- The database is the one that `init_database` opens, and the rows are what SELECT filename FROM files
  -- then yields, if it can be prepared.
  unfoldable pub initial_state : Db → Option (List CString) → NameServerState Db
  initial_state db rows = record {
    db = db;
    file_trie = load_files_from_db trie_create rows;
    storage_servers = [];
    users = [];
    locks = [];
    next_ss_id = pos 1;
  }
