-- ===== src/NameServer/Ownership/Requests.antt =====
-- What each handler does to the rights on a file, when another user than its owner asks.
use network_doc.Base.{
  ℕ, ◌≡◌, ◌≢◌, inl, inr, true, false, not, Option, none, some, arith, Bool-cases, Option-cases,
  CString, str_eq, str_eq_iff, pos,
}
use network_doc.Message.{Message}
use network_doc.Trie.{trie_search}
use network_doc.NameServer.State.{NameServerState, StorageServerInfo}
use network_doc.NameServer.Database.{
  Database, DatabaseLaws, insert_file, insert_folder, select_owner_servers,
}
use network_doc.NameServer.Permission.{check_permission, access_read}
use network_doc.NameServer.Servers.{select_server, select_replica}
use network_doc.NameServer.Register.{handle_register_ss}
use network_doc.NameServer.Files.{
  new_file, replica_id_of, create_on, handle_create, create_folder_on, handle_createfolder,
  handle_read, remove_file, handle_delete,
}
use network_doc.NameServer.Edits.{handle_checkpoint}
use network_doc.NameServer.Ownership.{
  Owned, Guarded, unchanged, insert-Guarded, touch-Guarded, delete_rows-Guarded,
}

-- A request that leaves the database alone.
abbrev pub KeepsDatabase :
    {Db : Type 0} → NameServerState Db → Option (NameServerState Db × Message) → Type 0
KeepsDatabase s none = Unit
KeepsDatabase s (some (t, resp)) = t.db ≡ s.db

pub database-register_ss :
    {Db : Type 0} (s : NameServerState Db) (m : Message) (now : ℕ)
    → KeepsDatabase s (handle_register_ss s m now)
unfolding handle_register_ss
database-register_ss s m now = ground arith

pub database-checkpoint :
    (D : Database) (s : NameServerState D.Db) (m : Message)
    → KeepsDatabase s (handle_checkpoint D s m)
unfolding handle_checkpoint
database-checkpoint D s m = ground arith

module _ (D : Database) (laws : DatabaseLaws D) (k o : CString) where
  open D use {Db, prepare, file, permissions, insert, grant, revoke, request}

  -- The rights on the file k do not change from one state to the next.
  abbrev pub Safe : NameServerState Db → NameServerState Db → Type 0
  Safe s t = Guarded D laws k o s.db t.db

  abbrev pub Holds : NameServerState Db → Type 0
  Holds s = Owned D laws k o s.db

  pub kept : {db db' : Db} → Owned D laws k o db → db' ≡ db → Guarded D laws k o db db'
  kept own e = unchanged D laws k o own e

  create_on-Guarded :
      (s : NameServerState Db) (m : Message) (now : ℕ) (best : ℕ × StorageServerInfo)
      (replica : Option StorageServerInfo)
      → Holds s
      → Safe s (create_on D s m now best replica).0
  unfolding create_on
  create_on-Guarded s m now (idx, ss) replica own = elim (Bool-cases (prepare s.db insert_file)) [
    | inr e ↦ kept own (ground arith)
    | inl e ↦
        let row = new_file m ss.id (replica_id_of replica) false now in
        elim (Option-cases (insert s.db row)) [
          | inl n ↦ kept own (ground arith)
          | inr (db', n) ↦
              rw (e, create_on, n, create_on) (insert-Guarded D laws k o s.db db' row own n)
        ]
  ]

  create_folder_on-Guarded :
      (s : NameServerState Db) (m : Message) (now : ℕ) (best : ℕ × StorageServerInfo)
      → Holds s
      → Safe s (create_folder_on D s m now best).0
  unfolding create_folder_on
  create_folder_on-Guarded s m now (idx, ss) own = elim (Bool-cases (prepare s.db insert_folder)) [
    | inr e ↦ kept own (ground arith)
    | inl e ↦
        let row = new_file m ss.id (pos 0) true now in
        elim (Option-cases (insert s.db row)) [
          | inl n ↦ kept own (ground arith)
          | inr (db', n) ↦
              rw (e, create_folder_on, n, create_folder_on)
                (insert-Guarded D laws k o s.db db' row own n)
        ]
  ]

  pub create-Guarded :
      (s : NameServerState Db) (m : Message) (now : ℕ)
      → Holds s
      → Safe s (handle_create D s m now).0
  unfolding handle_create
  create-Guarded s m now own = elim (Bool-cases (trie_search s.file_trie m.filename)) [
    | inl e ↦ kept own (ground arith)
    | inr e ↦ elim (Option-cases (select_server s.storage_servers)) [
      | inl n ↦ kept own (ground arith)
      | inr (best, n) ↦
          rw (e, n, handle_create)
            (create_on-Guarded s m now best (select_replica s.storage_servers 0 best.0) own)
    ]
  ]

  pub createfolder-Guarded :
      (s : NameServerState Db) (m : Message) (now : ℕ)
      → Holds s
      → Safe s (handle_createfolder D s m now).0
  unfolding handle_createfolder
  createfolder-Guarded s m now own = elim (Bool-cases (trie_search s.file_trie m.filename)) [
    | inl e ↦ kept own (ground arith)
    | inr e ↦ elim (Option-cases (select_server s.storage_servers)) [
      | inl n ↦ kept own (ground arith)
      | inr (best, n) ↦ rw (e, n, handle_createfolder) (create_folder_on-Guarded s m now best own)
    ]
  ]

  pub read-Guarded :
      (s : NameServerState Db) (m : Message) (now : ℕ) → Holds s → Safe s (handle_read D s m now).0
  unfolding handle_read
  read-Guarded s m now own = elim (Bool-cases (not (trie_search s.file_trie m.filename))) [
    | inl e ↦ kept own (ground arith)
    | inr e ↦ elim (Bool-cases (not (check_permission D s.db m.username m.filename access_read))) [
      | inl n ↦ kept own (ground arith)
      | inr n ↦ rw (e, n, handle_read) (touch-Guarded D laws k o s.db m.filename now own)
    ]
  ]

  -- A deletion that is not refused is of another file, since the user does not own this one.
  pub delete-Guarded :
      (s : NameServerState Db) (m : Message)
      → m.username ≢ o
      → Holds s
      → Safe s (handle_delete D s m).0
  unfolding handle_delete remove_file
  delete-Guarded s m ne own = elim (Bool-cases (not (trie_search s.file_trie m.filename))) [
    | inl e ↦ kept own (ground arith)
    | inr e ↦ elim (Bool-cases (not (prepare s.db select_owner_servers))) [
      | inl n ↦ kept own (ground arith)
      | inr n ↦ elim (Option-cases (file s.db m.filename)) [
        | inl x ↦
            let other : str_eq m.filename k ≡ false =
              ground (arith, str_eq_iff m.filename k, own.1) in
            rw (e, n, x, handle_delete) (delete_rows-Guarded D laws k o s.db m.filename other own)
        | inr (r, x) ↦ elim (Bool-cases (str_eq r.owner m.username)) [
          | inl y ↦
              let other : str_eq m.filename k ≡ false =
                ground (
                  arith,
                  str_eq_iff m.filename k,
                  own.1,
                  own.2,
                  str_eq_iff r.owner m.username,
                  ne,
                ) in
              rw (e, n, x, y, handle_delete)
                (delete_rows-Guarded D laws k o s.db m.filename other own)
          | inr y ↦ kept own (ground arith)
        ]
      ]
    ]
  ]
