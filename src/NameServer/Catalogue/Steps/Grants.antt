-- ===== src/NameServer/Catalogue/Steps/Grants.antt =====
-- What the requests for access control do to the catalogue of names.
use network_doc.Base.{
  ℕ, ◌-◌, ◌≡◌, inl, inr, not, ◌||◌, Option, none, some, arith, Bool-cases, Option-cases, CString,
  codes, str_eq, ℤ,
}
use network_doc.Message.{max_username, Message, strncpy}
use network_doc.Trie.{trie_search}
use network_doc.Format.{scan_char_int, scan_until, scan_char_word}
use network_doc.NameServer.State.{NameServerState}
use network_doc.NameServer.Database.{Database, RequestRow}
use network_doc.NameServer.Permission.{is_owner}
use mathlib.Core.Path.{subst}
use network_doc.NameServer.Database.{DatabaseLaws}
use network_doc.NameServer.Register.{user_exists}
use network_doc.NameServer.Access.{
  trim_in_place, atoi, grant_access, add_access, handle_addaccess, revoke_from, handle_remaccess,
  submit_request, view_requests, request_command, handle_request_access,
}
use network_doc.NameServer.Catalogue.{kept}
use network_doc.NameServer.Catalogue.Steps.{Steps, idle}

module _ (D : Database) (laws : DatabaseLaws D) where
  open D use {Db, file, insert, grant, revoke, request}

  grant-Steps :
      (s : NameServerState Db) (m : Message) (target : CString) (perms : ℤ)
      → Steps D laws s (grant_access D s m target perms).0
  unfolding grant_access
  grant-Steps s m target perms = elim (Option-cases (grant s.db m.filename target perms)) [
    | inl e ↦ idle D laws (ground arith) (ground arith)
    | inr (db', e) ↦
        kept (ground arith)
          (λ k. ground (arith, laws.file-grant s.db db' m.filename target k perms e))
  ]

  pub remaccess-Steps :
      (s : NameServerState Db) (m : Message) → Steps D laws s (handle_remaccess D s m).0
  unfolding handle_remaccess revoke_from
  remaccess-Steps s m =
      let target = trim_in_place (strncpy (max_username - 1) m.body) in
      elim (Option-cases (revoke s.db m.filename target)) [
        | inl e ↦ idle D laws (ground arith) (ground arith)
        | inr (db', e) ↦
            kept (ground arith)
              (λ k. ground (arith, laws.file-revoke s.db db' m.filename target k e))
      ]

  add_access-Steps :
      (s : NameServerState Db) (m : Message) (target : CString) (perms : ℤ)
      → Steps D laws s (add_access D s m target perms).0
  unfolding add_access
  add_access-Steps s m target perms =
      elim (Bool-cases (
        not (trie_search s.file_trie m.filename)
        || (not (is_owner D s.db m.username m.filename) || not (user_exists s.users target)))) [
          | inl e ↦ idle D laws (ground arith) (ground arith)
          | inr e ↦
              let same : add_access D s m target perms ≡ grant_access D s m target perms =
                ground arith in
              rw (same, add_access) (grant-Steps s m target perms)
        ]

  pub addaccess-Steps :
      (s s' : NameServerState Db) (resp : Message) (m : Message)
      → handle_addaccess D s m ≡ some (s', resp)
      → Steps D laws s s'
  unfolding handle_addaccess
  addaccess-Steps s s' resp m h = elim (Option-cases (scan_until b'|' m.body)) [
    | inl e ↦ idle D laws (ground arith) (ground arith)
    | inr ((target, rest), e) ↦ elim (Option-cases (scan_char_int b'|' rest)) [
      | inl n ↦ idle D laws (ground arith) (ground arith)
      | inr ((perms, _), n) ↦
          let same : (add_access D s m target perms).0 ≡ s' = ground arith in
          subst (Steps D laws s) same (add_access-Steps s m target perms)
    ]
  ]

  submit-Steps :
      (s : NameServerState Db) (m : Message) (access_type : ℤ) (now : ℕ)
      → Steps D laws s (submit_request D s m access_type now).0
  unfolding submit_request
  submit-Steps s m access_type now =
      let row : RequestRow = record {
        filename = m.filename;
        requester = m.username;
        access_type = access_type;
        requested_at = now;
      } in
      elim (Option-cases (request s.db row)) [
        | inl e ↦ idle D laws (ground arith) (ground arith)
        | inr (db', e) ↦
            kept (ground arith) (λ k. ground (arith, laws.file-request s.db db' row k e))
      ]

  request_command-Steps :
      (s s' : NameServerState Db) (resp : Message) (m : Message) (cmd : CString)
      (param : Option (CString × CString)) (now : ℕ)
      → request_command D s m cmd param now ≡ some (s', resp)
      → Steps D laws s s'
  unfolding request_command view_requests
  request_command-Steps s s' resp m cmd none now h = idle D laws (ground arith) (ground arith)
  request_command-Steps s s' resp m cmd (some (p, rest)) now h =
      elim (Bool-cases (str_eq cmd (codes "REQUEST"))) [
        | inr e ↦ idle D laws (ground arith) (ground arith)
        | inl e ↦
            let same : (submit_request D s m (atoi p) now).0 ≡ s' = ground arith in
            subst (Steps D laws s) same (submit-Steps s m (atoi p) now)
      ]

  pub request_access-Steps :
      (s s' : NameServerState Db) (resp : Message) (m : Message) (now : ℕ)
      → handle_request_access D s m now ≡ some (s', resp)
      → Steps D laws s s'
  unfolding handle_request_access
  request_access-Steps s s' resp m now h = elim (Option-cases (scan_until b'|' m.body)) [
    | inl e ↦ idle D laws (ground arith) (ground arith)
    | inr ((cmd, rest), e) ↦
        request_command-Steps s s' resp m cmd (scan_char_word b'|' rest) now (ground arith)
  ]
