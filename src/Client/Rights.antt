-- ===== src/Client/Rights.antt =====
-- The commands of src/client/client_commands.c and src/client/client_commands2.c that change who may
-- use a file. `none` stands for an argument that overruns its array.
pub mod Grants
use network_doc.Base.{
  ℕ, Option, none, some, List, [], ◌∷◌, ◌++◌, ◌-◌, if◌then◌else◌, CString, codes, str_eq,
}
use network_doc.Message.{buffer_size, max_filename, max_username, Message, strncpy}
use network_doc.Format.{show_nat}
use network_doc.NameServer.Permission.{access_read, access_write}
use network_doc.Client.Network.{Network, ClientState, line, request, Outcome, ask}
use network_doc.Client.Args.{scan_words, two_words}

-- ACCESS_READ and ACCESS_WRITE by the flag.
unfoldable pub flag_permissions : CString → Option ℕ
flag_permissions flag =
    if str_eq flag (codes "-R")
    then some access_read
    else if str_eq flag (codes "-W")
    then some access_write
    else none

abbrev pub grant_message : CString → CString → CString → ℕ → Message
grant_message owner filename username permissions = record (request owner "ADDACCESS" filename) {
  body = username ++ (b'|' ∷ show_nat permissions);
}

abbrev pub revoke_message : CString → CString → CString → Message
revoke_message owner filename username = record (request owner "REMACCESS" filename) {
  body = strncpy (buffer_size - 1) username;
}

-- W is ACCESS_WRITE, anything else ACCESS_READ.
abbrev pub access_request : CString → CString → CString → Message
access_request username filename access_type = record (request username "REQUESTACCESS" filename) {
  body =
      codes "REQUEST|"
      ++ show_nat (if str_eq access_type (codes "W") then access_write else access_read);
}

module _ (N : Network) where
  open N use {World, Socket}

  -- The response's data is printed.
  abbrev pub told : ClientState Socket → World → Message → Outcome N
  told c w msg = ask N c w msg (λ w1 resp. (w1, (resp.body ++ 10 ∷ []) ∷ []))

  abbrev pub grant_from :
      ClientState Socket → World → Option (Option (List CString)) → Option (Outcome N)
  grant_from c w none = none
  grant_from c w (some (some (flag ∷ (filename ∷ (username ∷ []))))) =
      elim (flag_permissions flag) [
        | none ↦ some (w, line "Invalid flag. Use -R for read or -W for write" ∷ [])
        | some permissions ↦
            some (told c w (grant_message c.username filename username permissions))
      ]
  grant_from c w (some other) = some (w, line "Usage: ADDACCESS -R|-W <filename> <username>" ∷ [])

  unfoldable pub cmd_addaccess : ClientState Socket → World → CString → Option (Outcome N)
  cmd_addaccess c w args = grant_from c w (scan_words (8 ∷ max_filename ∷ max_username ∷ []) args)

  unfoldable pub cmd_remaccess : ClientState Socket → World → CString → Option (Outcome N)
  cmd_remaccess c w args = elim (two_words (scan_words (max_filename ∷ max_username ∷ []) args)) [
    | none ↦ none
    | some none ↦ some (w, line "Usage: REMACCESS <filename> <username>" ∷ [])
    | some (some (filename, username)) ↦
        some (told c w (revoke_message c.username filename username))
  ]

  unfoldable pub cmd_requestaccess : ClientState Socket → World → CString → Option (Outcome N)
  cmd_requestaccess c w args = elim (two_words (scan_words (max_filename ∷ 4 ∷ []) args)) [
    | none ↦ none
    | some none ↦ some (w, line "Usage: REQUESTACCESS <filename> <R|W>" ∷ [])
    | some (some (filename, access_type)) ↦
        some (told c w (access_request c.username filename access_type))
  ]
