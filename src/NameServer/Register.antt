-- ===== src/NameServer/Register.antt =====
-- `handle_register_ss`, `handle_register_client` and `handle_list` of src/nameserver/nm_handlers.c.
-- `none` stands for undefined behaviour: a buffer overflow, or the use of a variable that was not set.
use network_doc.Base.{
  ℕ, ◌-◌, Bool, true, false, not, ◌&&◌, ◌||◌, Option, none, some, List, [], ◌∷◌, ◌++◌, ltb, leb,
  if◌then◌else◌, length, CString, codes, str_eq, ℤ, pos, inc,
}
use network_doc.Message.{
  append_line, max_username, server_error, Message, strncpy, error_response, data_response,
}
use network_doc.Format.{scan_char_int, scan_until, show_int}
use network_doc.NameServer.State.{NameServerState, UserInfo, max_storage_servers, max_users}

-- INET_ADDRSTRLEN
abbrev pub inet_addrstrlen : ℕ
inet_addrstrlen = 16

-- The loop that looks for a user.
unfoldable pub user_exists : List UserInfo → CString → Bool
user_exists [] name = false
user_exists (u ∷ rest) name = str_eq u.username name || user_exists rest name

module _ {Db : Type 0} where
  add_server : NameServerState Db → CString → ℤ → ℕ → NameServerState Db × Message
  add_server s ip port now = (
    record s {
      next_ss_id = inc s.next_ss_id;
      storage_servers =
          s.storage_servers
          ++ record {
            id = s.next_ss_id;
            ip = strncpy (inet_addrstrlen - 1) ip;
            port = port;
            is_alive = true;
            last_heartbeat = now;
            file_count = pos 0;
          }
            ∷ [];
    },
    data_response (codes "SS_ID:" ++ show_int s.next_ss_id),
  )

  -- sscanf(msg->data, "%[^:]:%d", ip, &port) sets both, or the code goes on with unset variables.
  unfoldable pub handle_register_ss :
      NameServerState Db → Message → ℕ → Option (NameServerState Db × Message)
  unfolding add_server
  handle_register_ss s msg now =
      if leb max_storage_servers (length s.storage_servers)
      then some (s, error_response server_error "Max storage servers reached")
      else elim (scan_until 58 msg.body) [
        | none ↦ none
        | some (ip, rest) ↦
            if leb inet_addrstrlen (length ip) then none else elim (scan_char_int 58 rest) [
              | none ↦ none
              | some (port, _) ↦ some (add_server s ip port now)
            ]
      ]

  unfoldable pub handle_register_client :
      NameServerState Db → Message → ℕ → NameServerState Db × Message
  handle_register_client s msg now = (
    if not (user_exists s.users msg.username) && ltb (length s.users) max_users
        then record s {
          users =
              s.users
              ++ record { username = strncpy (max_username - 1) msg.username; registered_at = now }
                ∷ [];
        }
        else s,
    data_response (codes "Registered successfully"),
  )

-- "  - %s\n" in a buffer of 128 bytes
abbrev pub user_line : UserInfo → CString
user_line u = strncpy 127 (codes "  - " ++ (u.username ++ (10 ∷ [])))

unfoldable pub list_loop : List UserInfo → CString → CString
list_loop [] result = result
list_loop (u ∷ rest) result = list_loop rest (append_line result (user_line u))

unfoldable pub handle_list : {Db : Type 0} → NameServerState Db → NameServerState Db × Message
handle_list s = (s, data_response (list_loop s.users (codes "Registered Users:" ++ (10 ∷ []))))
