-- ===== src/NameServer/Ownership/Grants.antt =====
-- What the handlers of rights and the commit do to the rights on a file of another's.
use network_doc.Base.{
  ℕ, ◌≡◌, ◌≢◌, ◌-◌, inl, inr, false, not, ◌||◌, Option, none, some, arith, Bool-cases, Option-cases,
  some_inj, CString, codes, str_eq, ℤ,
}
use mathlib.Core.Path.{subst}
use network_doc.Message.{max_username, Message, strncpy}
use network_doc.Trie.{trie_search}
use network_doc.Format.{scan_int, scan_char_int, scan_until, scan_char_word}
use network_doc.NameServer.State.{NameServerState}
use network_doc.NameServer.Database.{
  Database, RequestRow, DatabaseLaws, revoke_access, replace_access,
}
use network_doc.NameServer.Permission.{is_owner}
use network_doc.NameServer.Register.{user_exists}
use network_doc.NameServer.Edits.{handle_commit}
use network_doc.NameServer.Access.{
  trim_in_place, atoi, grant_access, add_access, handle_addaccess, revoke_from, handle_remaccess,
  submit_request, view_requests, request_command, handle_request_access,
}
use network_doc.NameServer.Ownership.{
  modify-Guarded, request-Guarded, grant-Guarded, revoke-Guarded, is_owner-other,
}
use network_doc.NameServer.Ownership.Requests.{Safe, Holds, kept}

module _ (D : Database) (laws : DatabaseLaws D) (k o : CString) where
  open D use {Db, prepare, file, permissions, insert, grant, revoke, request}

  grant_access-Guarded :
      (s : NameServerState Db) (m : Message) (target : CString) (perms : ℤ)
      → str_eq m.filename k ≡ false
      → Holds D laws k o s
      → Safe D laws k o s (grant_access D s m target perms).0
  unfolding grant_access
  grant_access-Guarded s m target perms other own =
      elim (Bool-cases (prepare s.db replace_access)) [
        | inr e ↦ kept D laws k o own (ground arith)
        | inl e ↦ elim (Option-cases (grant s.db m.filename target perms)) [
          | inl n ↦ kept D laws k o own (ground arith)
          | inr (db', n) ↦
              rw (e, grant_access, n, grant_access)
                (grant-Guarded D laws k o s.db db' m.filename target perms other own n)
        ]
      ]

  add_access-Guarded :
      (s : NameServerState Db) (m : Message) (target : CString) (perms : ℤ)
      → m.username ≢ o
      → Holds D laws k o s
      → Safe D laws k o s (add_access D s m target perms).0
  unfolding add_access
  add_access-Guarded s m target perms ne own =
      elim (Bool-cases (
        not (trie_search s.file_trie m.filename)
        || (not (is_owner D s.db m.username m.filename) || not (user_exists s.users target)))) [
          | inl e ↦ kept D laws k o own (ground arith)
          | inr e ↦
              let same : add_access D s m target perms ≡ grant_access D s m target perms =
                ground arith in
              let other =
                is_owner-other D laws k o s.db m.username m.filename ne own (ground arith) in
              rw (same, add_access) (grant_access-Guarded s m target perms other own)
        ]

  pub addaccess-Guarded :
      (s s' : NameServerState Db) (resp m : Message)
      → m.username ≢ o
      → Holds D laws k o s
      → handle_addaccess D s m ≡ some (s', resp)
      → Safe D laws k o s s'
  unfolding handle_addaccess
  addaccess-Guarded s s' resp m ne own h = elim (Option-cases (scan_until b'|' m.body)) [
    | inl e ↦ kept D laws k o own (ground arith)
    | inr ((target, rest), e) ↦ elim (Option-cases (scan_char_int b'|' rest)) [
      | inl n ↦ kept D laws k o own (ground arith)
      | inr ((perms, _), n) ↦
          let same : (add_access D s m target perms).0 ≡ s' = ground arith in
          subst (Safe D laws k o s) same (add_access-Guarded s m target perms ne own)
    ]
  ]

  pub remaccess-Guarded :
      (s : NameServerState Db) (m : Message)
      → m.username ≢ o
      → Holds D laws k o s
      → Safe D laws k o s (handle_remaccess D s m).0
  unfolding handle_remaccess revoke_from
  remaccess-Guarded s m ne own =
      let target = trim_in_place (strncpy (max_username - 1) m.body) in
      elim (Bool-cases (
        not (trie_search s.file_trie m.filename)
        || (not (is_owner D s.db m.username m.filename) || not (prepare s.db revoke_access)))) [
          | inl e ↦ kept D laws k o own (ground arith)
          | inr e ↦ elim (Option-cases (revoke s.db m.filename target)) [
            | inl n ↦ kept D laws k o own (ground arith)
            | inr (db', n) ↦
                let other =
                  is_owner-other D laws k o s.db m.username m.filename ne own (ground arith) in
                let same : (handle_remaccess D s m).0.db ≡ db' = ground arith in
                rw same (revoke-Guarded D laws k o s.db db' m.filename target other own n)
          ]
        ]

  pub commit-Guarded :
      (s s' : NameServerState Db) (resp : Message) (sock : ℕ) (m : Message) (now : ℕ)
      → Holds D laws k o s
      → handle_commit D s sock m now ≡ some (s', resp)
      → Safe D laws k o s s'
  unfolding handle_commit
  commit-Guarded s s' resp sock m now own h = elim (Option-cases (scan_int m.body)) [
    | inl e ↦ cc (rw (e, handle_commit) at h)
    | inr ((number, rest), e) ↦
        subst (λ (p : NameServerState Db × Message). Safe D laws k o s p.0)
          (some_inj (rw (e, handle_commit) at h))
          (modify-Guarded D laws k o s.db m.filename now own)
  ]

  submit-Guarded :
      (s : NameServerState Db) (m : Message) (access_type : ℤ) (now : ℕ)
      → Holds D laws k o s
      → Safe D laws k o s (submit_request D s m access_type now).0
  unfolding submit_request
  submit-Guarded s m access_type now own =
      let row : RequestRow = record {
        filename = m.filename;
        requester = m.username;
        access_type = access_type;
        requested_at = now;
      } in
      elim (Option-cases (request s.db row)) [
        | inl e ↦ kept D laws k o own (ground arith)
        | inr (db', e) ↦
            elim (Bool-cases (
              not (trie_search s.file_trie m.filename)
              || not (prepare s.db network_doc.NameServer.Database.insert_request))) [
                | inl n ↦ kept D laws k o own (ground arith)
                | inr n ↦
                    let same : (submit_request D s m access_type now).0.db ≡ db' = ground arith in
                    rw same (request-Guarded D laws k o s.db db' row own e)
              ]
      ]

  request_command-Guarded :
      (s s' : NameServerState Db) (resp m : Message) (cmd : CString)
      (param : Option (CString × CString)) (now : ℕ)
      → Holds D laws k o s
      → request_command D s m cmd param now ≡ some (s', resp)
      → Safe D laws k o s s'
  unfolding request_command view_requests
  request_command-Guarded s s' resp m cmd none now own h = kept D laws k o own (ground arith)
  request_command-Guarded s s' resp m cmd (some (p, rest)) now own h =
      elim (Bool-cases (str_eq cmd (codes "REQUEST"))) [
        | inr e ↦ kept D laws k o own (ground arith)
        | inl e ↦
            let same : (submit_request D s m (atoi p) now).0 ≡ s' = ground arith in
            subst (Safe D laws k o s) same (submit-Guarded s m (atoi p) now own)
      ]

  pub request_access-Guarded :
      (s s' : NameServerState Db) (resp m : Message) (now : ℕ)
      → Holds D laws k o s
      → handle_request_access D s m now ≡ some (s', resp)
      → Safe D laws k o s s'
  unfolding handle_request_access
  request_access-Guarded s s' resp m now own h = elim (Option-cases (scan_until b'|' m.body)) [
    | inl e ↦ kept D laws k o own (ground arith)
    | inr ((cmd, rest), e) ↦
        request_command-Guarded s s' resp m cmd (scan_char_word b'|' rest) now own (ground arith)
  ]
