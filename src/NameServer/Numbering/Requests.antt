-- ===== src/NameServer/Numbering/Requests.antt =====
-- What each request does to the numbers of the storage servers.
use network_doc.Base.{
  ℕ, ◌≡◌, refl, inl, inr, Option, none, some, arith, leb, Bool-cases, Option-cases, some_inj,
  length, negsuc,
}
use mathlib.Core.Path.{subst}
use network_doc.Message.{Message}
use network_doc.Format.{scan_until, scan_char_int}
use network_doc.NameServer.State.{NameServerState, StorageServerInfo, max_storage_servers}
use network_doc.NameServer.Database.{Database}
use network_doc.Trie.{trie_search}
use network_doc.NameServer.Servers.{select_server, select_replica}
use network_doc.NameServer.Register.{inet_addrstrlen, handle_register_ss}
use network_doc.NameServer.Files.{
  create_on, handle_create, create_folder_on, handle_createfolder, handle_read, remove_file,
  handle_delete,
}
use network_doc.NameServer.Edits.{
  lock_sentence, handle_write, handle_commit, handle_undo, handle_exec, handle_checkpoint,
}
use network_doc.NameServer.Access.{
  grant_access, add_access, handle_addaccess, revoke_from, handle_remaccess, submit_request,
  view_requests, request_command, handle_request_access,
}
use network_doc.NameServer.Numbering.{
  ids, Numbering, kept, added, length-ids, ids-append, ids-count_file, ids-uncount_file,
}

-- The requests that leave the table alone.
abbrev pub KeepsServers :
    {Db : Type 0} → NameServerState Db → Option (NameServerState Db × Message) → Type 0
KeepsServers s none = Unit
KeepsServers s (some (t, resp)) =
    (t.storage_servers ≡ s.storage_servers) × (t.next_ss_id ≡ s.next_ss_id)

module _ (D : Database) where
  open D use {Db}

  pub servers-read :
      (s : NameServerState Db) (m : Message) (now : ℕ)
      → KeepsServers s (some (handle_read D s m now))
  unfolding handle_read
  servers-read s m now = ground arith

  pub servers-write :
      (s : NameServerState Db) (sock : ℕ) (m : Message) (now : ℕ)
      → KeepsServers s (some (handle_write D s sock m now))
  unfolding handle_write lock_sentence
  servers-write s sock m now = ground arith

  pub servers-commit :
      (s : NameServerState Db) (sock : ℕ) (m : Message) (now : ℕ)
      → KeepsServers s (handle_commit D s sock m now)
  unfolding handle_commit
  servers-commit s sock m now = ground arith

  pub servers-addaccess :
      (s : NameServerState Db) (m : Message) → KeepsServers s (handle_addaccess D s m)
  unfolding handle_addaccess add_access grant_access
  servers-addaccess s m = ground arith

  pub servers-remaccess :
      (s : NameServerState Db) (m : Message) → KeepsServers s (some (handle_remaccess D s m))
  unfolding handle_remaccess revoke_from
  servers-remaccess s m = ground arith

  pub servers-undo :
      (s : NameServerState Db) (m : Message) → KeepsServers s (some (handle_undo D s m))
  unfolding handle_undo
  servers-undo s m = ground arith

  pub servers-exec :
      (s : NameServerState Db) (m : Message) → KeepsServers s (some (handle_exec D s m))
  unfolding handle_exec
  servers-exec s m = ground arith

  pub servers-checkpoint :
      (s : NameServerState Db) (m : Message) → KeepsServers s (handle_checkpoint D s m)
  unfolding handle_checkpoint
  servers-checkpoint s m = ground arith

  pub servers-request_access :
      (s : NameServerState Db) (m : Message) (now : ℕ)
      → KeepsServers s (handle_request_access D s m now)
  unfolding handle_request_access request_command submit_request view_requests
  servers-request_access s m now = ground arith

  -- The numbers stay, whatever the counts of files.
  abbrev pub KeepsIds : NameServerState Db → NameServerState Db → Type 0
  KeepsIds s t = (ids t.storage_servers ≡ ids s.storage_servers) × (t.next_ss_id ≡ s.next_ss_id)

  ids-create_on :
      (s : NameServerState Db) (m : Message) (now idx : ℕ) (ss : StorageServerInfo)
      (replica : Option StorageServerInfo)
      → KeepsIds s (create_on D s m now (idx, ss) replica).0
  unfolding create_on
  ids-create_on s m now idx ss replica = ground (arith, ids-count_file s.storage_servers idx)

  ids-create_folder_on :
      (s : NameServerState Db) (m : Message) (now idx : ℕ) (ss : StorageServerInfo)
      → KeepsIds s (create_folder_on D s m now (idx, ss)).0
  unfolding create_folder_on
  ids-create_folder_on s m now idx ss = ground (arith, ids-count_file s.storage_servers idx)

  pub ids-create :
      (s : NameServerState Db) (m : Message) (now : ℕ) → KeepsIds s (handle_create D s m now).0
  unfolding handle_create
  ids-create s m now = elim (Bool-cases (trie_search s.file_trie m.filename)) [
    | inl e ↦ rw (e, handle_create) (refl, refl)
    | inr e ↦ elim (Option-cases (select_server s.storage_servers)) [
      | inl n ↦ rw (e, n, handle_create) (refl, refl)
      | inr ((idx, ss), n) ↦
          rw (e, n, handle_create)
            (ids-create_on s m now idx ss (select_replica s.storage_servers 0 idx))
    ]
  ]

  pub ids-createfolder :
      (s : NameServerState Db) (m : Message) (now : ℕ)
      → KeepsIds s (handle_createfolder D s m now).0
  unfolding handle_createfolder
  ids-createfolder s m now = elim (Bool-cases (trie_search s.file_trie m.filename)) [
    | inl e ↦ rw (e, handle_createfolder) (refl, refl)
    | inr e ↦ elim (Option-cases (select_server s.storage_servers)) [
      | inl n ↦ rw (e, n, handle_createfolder) (refl, refl)
      | inr ((idx, ss), n) ↦ rw (e, n, handle_createfolder) (ids-create_folder_on s m now idx ss)
    ]
  ]

  pub ids-delete : (s : NameServerState Db) (m : Message) → KeepsIds s (handle_delete D s m).0
  unfolding handle_delete remove_file
  ids-delete s m = elim (Option-cases (D.file s.db m.filename)) [
    | inl e ↦ ground (arith, ids-uncount_file s.storage_servers (negsuc 0))
    | inr (r, e) ↦ ground (arith, ids-uncount_file s.storage_servers r.storage_server_id)
  ]

  pub register-Numbering :
      (s t : NameServerState Db) (m resp : Message) (now : ℕ)
      → handle_register_ss s m now ≡ some (t, resp)
      → Numbering s t
  unfolding handle_register_ss
  register-Numbering s t m resp now h =
      elim (Bool-cases (leb max_storage_servers (length s.storage_servers))) [
        | inl e ↦
            subst (λ (q : NameServerState Db × Message). Numbering s q.0)
              (some_inj (rw (e, handle_register_ss) at h)) (kept refl refl)
        | inr e ↦ elim (Option-cases (scan_until 58 m.body)) [
          | inl n ↦ cc (rw (e, n, handle_register_ss) at h)
          | inr ((ip, rest), n) ↦ elim (Bool-cases (leb inet_addrstrlen (length ip))) [
            | inl x ↦ cc (rw (e, n, handle_register_ss, x, handle_register_ss) at h)
            | inr x ↦ elim (Option-cases (scan_char_int 58 rest)) [
              | inl y ↦ cc (rw (e, n, handle_register_ss, x, y, handle_register_ss) at h)
              | inr ((port, more), y) ↦
                  subst (λ (q : NameServerState Db × Message). Numbering s q.0)
                    (some_inj (rw (e, n, handle_register_ss, x, y, handle_register_ss) at h))
                    (added (ground (arith, length-ids s.storage_servers))
                      (ids-append s.storage_servers _) refl)
            ]
          ]
        ]
      ]
