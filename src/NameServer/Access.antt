-- ===== src/NameServer/Access.antt =====
-- `handle_addaccess`, `handle_remaccess` and `handle_request_access` of
-- src/nameserver/nm_handlers2.c. `none` stands for undefined behaviour.
pub mod Grants
use network_doc.Base.{
  ℕ, ◌+◌, ◌-◌, not, Option, none, some, List, [], ◌∷◌, ◌++◌, leb, if◌then◌else◌, length, CString,
  codes, str_eq, ℤ, pos, eq_ℤ,
}
use network_doc.Message.{
  append_line, max_username, file_not_found, invalid_param, server_error, not_owner, user_not_found,
  Message, init_message, strncpy, error_response, data_response,
}
use network_doc.Trie.{trie_search}
use network_doc.Format.{command_overflows, scan_int, scan_char_int, scan_until, scan_char_word}
use network_doc.NameServer.State.{NameServerState}
use network_doc.NameServer.Database.{
  Database, RequestRow, replace_access, revoke_access, insert_request, select_requests,
}
use network_doc.NameServer.Permission.{is_owner, access_read}
use network_doc.Text.{trim_start, trim_end}
use network_doc.NameServer.Register.{user_exists}

-- The array after `trim(target_user)`, whose result is not used: the white space at the end is cut
-- off in place, that at the start stays.
unfoldable pub trim_in_place : CString → CString
trim_in_place s = elim (trim_start s) [ [] ↦ s | c ∷ rest ↦ trim_end s ]

-- "  %s requests %s access to %s\n" in a buffer of 256 bytes
unfoldable pub request_line : RequestRow → CString
request_line r = strncpy 255 (
    codes "  "
    ++ (r.requester
        ++ (codes " requests "
            ++ ((if eq_ℤ r.access_type (pos access_read) then codes "READ" else codes "WRITE")
                ++ (codes " access to " ++ (r.filename ++ (10 ∷ [])))))))

-- The loop of VIEWREQUESTS.
unfoldable pub requests_loop : List RequestRow → CString → CString
requests_loop [] result = result
requests_loop (r ∷ rest) result = requests_loop rest (append_line result (request_line r))

-- atoi
abbrev pub atoi : CString → ℤ
atoi param = elim (scan_int param) [ none ↦ pos 0 | some (n, _) ↦ n ]

module _ (D : Database) where
  open D use {Db, prepare, grant, revoke, request, pending}

  -- INSERT OR REPLACE INTO access_control
  unfoldable pub grant_access :
      NameServerState Db → Message → CString → ℤ → NameServerState Db × Message
  grant_access s msg target perms =
      if prepare s.db replace_access
      then elim (grant s.db msg.filename target perms) [
        | none ↦ (s, error_response server_error "Failed to grant access")
        | some db' ↦ (record s { db = db' }, data_response (codes "Access granted to " ++ target))
      ]
      else (s, error_response server_error "Database error")

  -- `handle_addaccess` behind the parsing of "%[^|]|%d".
  unfoldable pub add_access :
      NameServerState Db → Message → CString → ℤ → NameServerState Db × Message
  add_access s msg target perms =
      if not (trie_search s.file_trie msg.filename)
      then (s, error_response file_not_found "File not found")
      else if not (is_owner D s.db msg.username msg.filename)
      then (s, error_response not_owner "Only owner can grant access")
      else if not (user_exists s.users target)
      then (s, error_response user_not_found "Target user not found")
      else grant_access s msg target perms

  -- The target name is written to char target_user[64] with no width.
  unfoldable pub handle_addaccess :
      NameServerState Db → Message → Option (NameServerState Db × Message)
  handle_addaccess s msg = elim (scan_until b'|' msg.body) [
    | none ↦ some (s, error_response invalid_param "Invalid format")
    | some (target, rest) ↦
        if leb max_username (length target) then none else elim (scan_char_int b'|' rest) [
          | none ↦ some (s, error_response invalid_param "Invalid format")
          | some (perms, _) ↦ some (add_access s msg target perms)
        ]
  ]

  unfoldable pub revoke_from : NameServerState Db → Message → CString → NameServerState Db × Message
  revoke_from s msg target =
      if prepare s.db revoke_access
      then elim (revoke s.db msg.filename target) [
        | none ↦ (s, error_response server_error "Failed to revoke access")
        | some db' ↦ (record s { db = db' }, data_response (codes "Access revoked from " ++ target))
      ]
      else (s, error_response server_error "Database error")

  unfoldable pub handle_remaccess : NameServerState Db → Message → NameServerState Db × Message
  handle_remaccess s msg =
      if not (trie_search s.file_trie msg.filename)
      then (s, error_response file_not_found "File not found")
      else if not (is_owner D s.db msg.username msg.filename)
      then (s, error_response not_owner "Only owner can revoke access")
      else revoke_from s msg (trim_in_place (strncpy (max_username - 1) msg.body))

  -- INSERT INTO access_requests. Where the statement is not prepared the response is empty.
  unfoldable pub submit_request :
      NameServerState Db → Message → ℤ → ℕ → NameServerState Db × Message
  submit_request s msg access_type now =
      if not (trie_search s.file_trie msg.filename)
      then (s, error_response file_not_found "File not found")
      else if prepare s.db insert_request
      then elim (request s.db (record {
        filename = msg.filename;
        requester = msg.username;
        access_type = access_type;
        requested_at = now;
      })) [
        | none ↦ (s, error_response server_error "Failed to submit request")
        | some db' ↦ (record s { db = db' }, data_response (codes "Access request submitted"))
      ]
      else (s, init_message)

  unfoldable pub view_requests : NameServerState Db → Message → NameServerState Db × Message
  view_requests s msg =
      if prepare s.db select_requests
      then (
        s,
        data_response (
            requests_loop (pending s.db msg.username)
              (codes "Pending Access Requests:" ++ (10 ∷ []))),
      )
      else (s, init_message)

  -- The commands behind the parsing of "%[^|]|%s"; strlen(param) of an unset `param` is undefined.
  unfoldable pub request_command :
      NameServerState Db
      → Message
      → CString
      → Option (CString × CString)
      → ℕ
      → Option (NameServerState Db × Message)
  request_command s msg cmd param now =
      if str_eq cmd (codes "REQUEST")
      then elim param [ none ↦ none | some (p, _) ↦ some (submit_request s msg (atoi p) now) ]
      else if str_eq cmd (codes "VIEWREQUESTS")
      then some (view_requests s msg)
      else some (s, init_message)

  unfoldable pub handle_request_access :
      NameServerState Db → Message → ℕ → Option (NameServerState Db × Message)
  handle_request_access s msg now = elim (scan_until b'|' msg.body) [
    | none ↦ some (s, error_response invalid_param "Invalid request format")
    | some (cmd, rest) ↦
        if command_overflows 32 max_username (cmd, rest)
        then none
        else request_command s msg cmd (scan_char_word b'|' rest) now
  ]
