-- ===== src/NameServer/Catalogue/Steps.antt =====
-- What each request does to the catalogue of names, and the agreement under every sequence of them.
pub mod Grants
pub mod Runs
use network_doc.Base.{
  ℕ, ◌-◌, ◌≡◌, refl, ap, inl, inr, true, false, not, Option, none, some, [], arith, Bool-cases,
  Option-cases, is_some, CString, str_eq, IsBytes, ℤ, pos, negsuc,
}
use network_doc.Message.{Message}
use network_doc.Trie.{trie_search}
use network_doc.Format.{scan_int}
use network_doc.NameServer.State.{NameServerState, StorageServerInfo}
use network_doc.NameServer.Database.{Database, insert_file, insert_folder, select_owner_servers}
use network_doc.NameServer.Permission.{check_permission, access_read}
use network_doc.NameServer.Servers.{select_server, select_replica}
use network_doc.NameServer.Database.{DatabaseLaws}
use network_doc.NameServer.Register.{handle_register_ss}
use network_doc.NameServer.Files.{
  new_file, replica_id_of, create_on, handle_create, create_folder_on, handle_createfolder,
  handle_read, remove_file, handle_delete,
}
use network_doc.NameServer.Edits.{lock_sentence, handle_write, handle_commit, handle_checkpoint}
use network_doc.NameServer.Catalogue.{
  DeletesSucceed, CatalogueStep, kept, added, removed, names-accessed, names-modified, names-delete,
}

-- A request that touches neither the trie nor the database.
abbrev KeepsCatalogue :
    {Db : Type 0} → NameServerState Db → Option (NameServerState Db × Message) → Type 0
KeepsCatalogue s none = Unit
KeepsCatalogue s (some (t, resp)) = (t.file_trie ≡ s.file_trie) × (t.db ≡ s.db)

catalogue-register_ss :
    {Db : Type 0} (s : NameServerState Db) (m : Message) (now : ℕ)
    → KeepsCatalogue s (handle_register_ss s m now)
unfolding handle_register_ss
catalogue-register_ss s m now = ground arith

catalogue-checkpoint :
    (D : Database) (s : NameServerState D.Db) (m : Message)
    → KeepsCatalogue s (handle_checkpoint D s m)
unfolding handle_checkpoint
catalogue-checkpoint D s m = ground arith

module _ (D : Database) (laws : DatabaseLaws D) where
  open D use {Db, file, insert, grant, revoke, request}

  abbrev Steps : NameServerState Db → NameServerState Db → Type 0
  Steps s t = CatalogueStep D laws s t

  -- Nothing of the catalogue changes.
  idle : {s t : NameServerState Db} → t.file_trie ≡ s.file_trie → t.db ≡ s.db → Steps s t
  idle e d = kept e (λ k. ap (λ db. is_some (file db k)) d)

  create_on-Steps :
      (s : NameServerState Db) (m : Message) (now : ℕ) (best : ℕ × StorageServerInfo)
      (replica : Option StorageServerInfo)
      → IsBytes m.filename
      → Steps s (create_on D s m now best replica).0
  unfolding create_on
  create_on-Steps s m now (idx, ss) replica b = elim (Bool-cases (D.prepare s.db insert_file)) [
    | inr e ↦ idle (ground arith) (ground arith)
    | inl e ↦
        let row = new_file m ss.id (replica_id_of replica) false now in
        elim (Option-cases (insert s.db row)) [
          | inl n ↦ idle (ground arith) (ground arith)
          | inr (db', n) ↦
              added m.filename b (ground arith)
                (λ k. ground (arith, laws.file-insert s.db db' row k n))
        ]
  ]

  create_folder_on-Steps :
      (s : NameServerState Db) (m : Message) (now : ℕ) (best : ℕ × StorageServerInfo)
      → IsBytes m.filename
      → Steps s (create_folder_on D s m now best).0
  unfolding create_folder_on
  create_folder_on-Steps s m now (idx, ss) b = elim (Bool-cases (D.prepare s.db insert_folder)) [
    | inr e ↦ idle (ground arith) (ground arith)
    | inl e ↦
        let row = new_file m ss.id (pos 0) true now in
        elim (Option-cases (insert s.db row)) [
          | inl n ↦ idle (ground arith) (ground arith)
          | inr (db', n) ↦
              added m.filename b (ground arith)
                (λ k. ground (arith, laws.file-insert s.db db' row k n))
        ]
  ]

  create-Steps :
      (s : NameServerState Db) (m : Message) (now : ℕ)
      → IsBytes m.filename
      → Steps s (handle_create D s m now).0
  unfolding handle_create
  create-Steps s m now b = elim (Bool-cases (trie_search s.file_trie m.filename)) [
    | inl e ↦ idle (ground arith) (ground arith)
    | inr e ↦ elim (Option-cases (select_server s.storage_servers)) [
      | inl n ↦ idle (ground arith) (ground arith)
      | inr (best, n) ↦
          rw (e, n, handle_create)
            (create_on-Steps s m now best (select_replica s.storage_servers 0 best.0) b)
    ]
  ]

  createfolder-Steps :
      (s : NameServerState Db) (m : Message) (now : ℕ)
      → IsBytes m.filename
      → Steps s (handle_createfolder D s m now).0
  unfolding handle_createfolder
  createfolder-Steps s m now b = elim (Bool-cases (trie_search s.file_trie m.filename)) [
    | inl e ↦ idle (ground arith) (ground arith)
    | inr e ↦ elim (Option-cases (select_server s.storage_servers)) [
      | inl n ↦ idle (ground arith) (ground arith)
      | inr (best, n) ↦ rw (e, n, handle_createfolder) (create_folder_on-Steps s m now best b)
    ]
  ]

  read-Steps : (s : NameServerState Db) (m : Message) (now : ℕ) → Steps s (handle_read D s m now).0
  unfolding handle_read
  read-Steps s m now = elim (Bool-cases (not (trie_search s.file_trie m.filename))) [
    | inl e ↦ idle (ground arith) (ground arith)
    | inr e ↦ elim (Bool-cases (not (check_permission D s.db m.username m.filename access_read))) [
      | inl n ↦ idle (ground arith) (ground arith)
      | inr n ↦ rw (e, n, handle_read) (kept refl (names-accessed D laws s.db m.filename now))
    ]
  ]

  remove_file-Steps :
      DeletesSucceed D laws
      → (s : NameServerState Db) (name : CString) (ss_id replica_id : ℤ) → IsBytes name
      → Steps s (remove_file D s name ss_id replica_id).0
  unfolding remove_file
  remove_file-Steps ok s name ss_id replica_id b =
      removed name b refl (names-delete D laws ok s.db name)

  delete-Steps :
      DeletesSucceed D laws
      → (s : NameServerState Db) (m : Message) → IsBytes m.filename
      → Steps s (handle_delete D s m).0
  unfolding handle_delete
  delete-Steps ok s m b = elim (Bool-cases (not (trie_search s.file_trie m.filename))) [
    | inl e ↦ idle (ground arith) (ground arith)
    | inr e ↦ elim (Bool-cases (not (D.prepare s.db select_owner_servers))) [
      | inl n ↦ idle (ground arith) (ground arith)
      | inr n ↦ elim (Option-cases (file s.db m.filename)) [
        | inl x ↦
            rw (e, n, x, handle_delete) (remove_file-Steps ok s m.filename (negsuc 0) (negsuc 0) b)
        | inr (r, x) ↦ elim (Bool-cases (str_eq r.owner m.username)) [
          | inl o ↦
              rw (e, n, x, o, handle_delete)
                (remove_file-Steps ok s m.filename r.storage_server_id r.replica_server_id b)
          | inr o ↦ idle (ground arith) (ground arith)
        ]
      ]
    ]
  ]

  write-Steps :
      (s : NameServerState Db) (sock : ℕ) (m : Message) (now : ℕ)
      → Steps s (handle_write D s sock m now).0
  unfolding handle_write lock_sentence
  write-Steps s sock m now = idle (ground arith) (ground arith)

  commit-Steps :
      (s s' : NameServerState Db) (resp : Message) (sock : ℕ) (m : Message) (now : ℕ)
      → handle_commit D s sock m now ≡ some (s', resp)
      → Steps s s'
  unfolding handle_commit
  commit-Steps s s' resp sock m now h = elim (Option-cases (scan_int m.body)) [
    | inl e ↦ cc (rw (e, handle_commit) at h)
    | inr ((number, rest), e) ↦
        kept (ground arith) (λ k. ground (arith, names-modified D laws s.db m.filename now k))
  ]
