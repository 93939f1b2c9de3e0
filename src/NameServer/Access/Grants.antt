-- ===== src/NameServer/Access/Grants.antt =====
-- Who may read and write a file, and what a grant and its revocation change.
use network_doc.Base.{
  ℕ, ◌≡◌, refl, ◌⊎◌, inl, inr, true, ◌&&◌, Option, none, some, arith, if◌then◌else◌, Bool-cases,
  Option-cases, CString, str_eq, str_eq_iff, ℤ,
}
use network_doc.Message.{success, Message, strncpy, set_message_error}
use network_doc.Trie.{trie_search}
use network_doc.Format.{scan_char_int, scan_until}
use network_doc.NameServer.State.{NameServerState, StorageServerInfo}
use network_doc.NameServer.Database.{Database, FileRow, select_owner}
use network_doc.NameServer.Permission.{check_permission, is_owner, owned_by, access_read}
use network_doc.NameServer.Servers.{server_info}
use network_doc.NameServer.Database.{DatabaseLaws}
use network_doc.NameServer.Register.{user_exists}
use network_doc.NameServer.Permission.{grants, grants_option}
use network_doc.NameServer.Files.{read_server, read_response, handle_read}
use network_doc.NameServer.Access.{
  grant_access, add_access, handle_addaccess, trim_in_place, revoke_from, handle_remaccess,
}

module _ (D : Database) where
  open D use {Db, prepare, file, permissions, grant, revoke}

  -- The user owns the file, or has an entry of the access control list with the bits required.
  abbrev pub MayAccess : Db → CString → CString → ℕ → Type 0
  MayAccess db user filename required =
      ((r : FileRow) × (file db filename ≡ some r) × (r.owner ≡ user))
      ⊎ ((perms : ℤ) × (permissions db filename user ≡ some perms) × (grants perms required ≡ true))

  owned_by-some :
      (row : Option FileRow) (user : CString)
      → owned_by row user ≡ true
      → (r : FileRow) × (row ≡ some r) × (r.owner ≡ user)
  owned_by-some none user h = cc
  owned_by-some (some r) user h = (r, refl, (str_eq_iff r.owner user).0 h)

  grants_option-some :
      (entry : Option ℤ) (required : ℕ)
      → grants_option entry required ≡ true
      → (perms : ℤ) × (entry ≡ some perms) × (grants perms required ≡ true)
  grants_option-some none required h = cc
  grants_option-some (some perms) required h = (perms, refl, h)

  -- `check_permission` says yes only to the owner and to those whom an entry grants the bits.
  pub check_permission-MayAccess :
      (db : Db) (user filename : CString) (required : ℕ)
      → check_permission D db user filename required ≡ true
      → MayAccess db user filename required
  unfolding check_permission
  check_permission-MayAccess db user filename required h =
      elim (Bool-cases (prepare db select_owner && owned_by (file db filename) user)) [
        | inl e ↦ inl (owned_by-some (file db filename) user (ground arith))
        | inr e ↦ inr (grants_option-some (permissions db filename user) required (ground arith))
      ]

  read_response-success :
      (s : NameServerState Db) (filename : CString)
      → (read_response D s filename).error_code ≡ success
      → (r : FileRow) × (ss : StorageServerInfo) × (file s.db filename ≡ some r)
        × (read_server s.storage_servers r ≡ some ss)
        × ((read_response D s filename).body ≡ strncpy 65535 (server_info ss))
  unfolding read_response set_message_error
  read_response-success s filename h = elim (Option-cases (file s.db filename)) [
    | inl e ↦ absurd (ground arith)
    | inr (r, e) ↦ elim (Option-cases (read_server s.storage_servers r)) [
      | inl n ↦ absurd (ground arith)
      | inr (ss, n) ↦ (r, ss, e, n, ground arith)
    ]
  ]

  -- A READ, STREAM or INFO succeeds only for a user who may read the file, and answers with the
  -- address of its primary server or, where that is not alive, of its replica.
  pub read-MayAccess :
      (s : NameServerState Db) (m : Message) (now : ℕ)
      → (handle_read D s m now).1.error_code ≡ success
      → MayAccess s.db m.username m.filename access_read
        × ((r : FileRow) × (ss : StorageServerInfo) × (file s.db m.filename ≡ some r)
            × (read_server s.storage_servers r ≡ some ss)
            × ((handle_read D s m now).1.body ≡ strncpy 65535 (server_info ss)))
  unfolding handle_read set_message_error
  read-MayAccess s m now h = elim (Bool-cases (trie_search s.file_trie m.filename)) [
    | inr e ↦ absurd (ground arith)
    | inl e ↦ elim (Bool-cases (check_permission D s.db m.username m.filename access_read)) [
      | inr n ↦ absurd (ground arith)
      | inl n ↦ (
        check_permission-MayAccess s.db m.username m.filename access_read n,
        rw (e, n) (read_response-success s m.filename (rw (e, n) at h)),
      )
    ]
  ]

module _ (D : Database) (laws : DatabaseLaws D) where
  open D use {Db, file, permissions, grant, revoke}

  grant_access-permissions :
      (s : NameServerState Db) (m : Message) (target k u : CString) (perms : ℤ)
      → (grant_access D s m target perms).1.error_code ≡ success
      → permissions (grant_access D s m target perms).0.db k u
        ≡ (if str_eq m.filename k && str_eq target u then some perms else permissions s.db k u)
  unfolding grant_access set_message_error
  grant_access-permissions s m target k u perms h =
      elim (Option-cases (grant s.db m.filename target perms)) [
        | inl e ↦ absurd (ground arith)
        | inr (db', e) ↦
            ground (arith, laws.permissions-grant s.db db' m.filename target k u perms e)
      ]

  -- An ADDACCESS that reads as `target|perms` and succeeds was sent by the owner, for a registered user,
  -- and sets the entry of that user for that file and no other entry.
  pub addaccess-permissions :
      (s s' : NameServerState Db) (resp m : Message) (target rest more k u : CString) (perms : ℤ)
      → scan_until b'|' m.body ≡ some (target, rest)
      → scan_char_int b'|' rest ≡ some (perms, more)
      → handle_addaccess D s m ≡ some (s', resp)
      → resp.error_code ≡ success
      → (is_owner D s.db m.username m.filename ≡ true)
        × (user_exists s.users target ≡ true)
        × (permissions s'.db k u
            ≡ (if str_eq m.filename k && str_eq target u then some perms else permissions s.db k u))
  unfolding handle_addaccess add_access set_message_error
  addaccess-permissions s s' resp m target rest more k u perms e e' h ok =
      ground (arith, grant_access-permissions s m target k u perms)

  revoke_from-permissions :
      (s : NameServerState Db) (m : Message) (target k u : CString)
      → (revoke_from D s m target).1.error_code ≡ success
      → permissions (revoke_from D s m target).0.db k u
        ≡ (if str_eq m.filename k && str_eq target u then none else permissions s.db k u)
  unfolding revoke_from set_message_error
  revoke_from-permissions s m target k u h = elim (Option-cases (revoke s.db m.filename target)) [
    | inl e ↦ absurd (ground arith)
    | inr (db', e) ↦ ground (arith, laws.permissions-revoke s.db db' m.filename target k u e)
  ]

  -- A REMACCESS that succeeds was sent by the owner, and removes the entry of the user named, less the
  -- white space at the end, for that file and no other entry.
  pub remaccess-permissions :
      (s : NameServerState Db) (m : Message) (k u : CString)
      → (handle_remaccess D s m).1.error_code ≡ success
      → (is_owner D s.db m.username m.filename ≡ true)
        × (permissions (handle_remaccess D s m).0.db k u ≡ (
            if str_eq m.filename k && str_eq (trim_in_place (strncpy 63 m.body)) u
            then none
            else permissions s.db k u))
  unfolding handle_remaccess set_message_error
  remaccess-permissions s m k u h =
      ground (arith, revoke_from-permissions s m (trim_in_place (strncpy 63 m.body)) k u)
