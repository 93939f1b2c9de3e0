-- ===== src/Client/Commands.antt =====
-- The commands of src/client/client_commands.c that take a file name or no argument.
use network_doc.Base.{
  Option, none, some, [], ◌∷◌, ◌++◌, ◌-◌, ◌==◌, if◌then◌else◌, String, CString, codes, length,
}
use network_doc.Message.{buffer_size, Message, strncpy}
use network_doc.Client.Network.{
  Network, ClientState, Reply, not_sent, not_received, response, line, error_line, succeeded,
  request, Outcome, exchange, ask, deliver, deliver_or,
}

-- "…'%s'…\n"
abbrev pub quoted : String → CString → String → CString
quoted before name after = codes before ++ (name ++ line after)

-- "\n…'%s'…\n"
abbrev pub title : String → CString → CString
title before name = 10 ∷ quoted before name "' ==="

-- "\n%s\n"
abbrev pub paragraph : CString → CString
paragraph text = 10 ∷ (text ++ 10 ∷ [])

abbrev pub connection_lost : CString
connection_lost = line "Error: Connection to Name Server lost. Please restart the client."

module _ (N : Network) where
  open N use {World, Socket, popen}

  -- The message of a command goes to the name server and then to the storage server that it names.
  abbrev pub forward :
      ClientState Socket → World → String → CString → (World → Message → Outcome N) → Outcome N
  forward c w type filename next =
      ask N c w (request c.username type filename)
        (λ w1 resp. deliver N w1 resp.body (request c.username type filename) next)

  unfoldable pub cmd_create : ClientState Socket → World → CString → Outcome N
  cmd_create c w filename =
      if length filename == 0
      then (w, line "Usage: CREATE <filename>" ∷ [])
      else forward c w "CREATE" filename
          (λ w1 resp. (w1, quoted "File '" filename "' created successfully" ∷ []))

  unfoldable pub cmd_read : ClientState Socket → World → CString → Outcome N
  cmd_read c w filename =
      if length filename == 0
      then (w, line "Usage: READ <filename>" ∷ [])
      else forward c w "READ" filename
          (λ w1 resp. (w1, (title "=== Content of '" filename ++ (resp.body ++ 10 ∷ [])) ∷ []))

  unfoldable pub cmd_delete : ClientState Socket → World → CString → Outcome N
  cmd_delete c w filename =
      if length filename == 0
      then (w, line "Usage: DELETE <filename>" ∷ [])
      else forward c w "DELETE" filename
          (λ w1 resp. (w1, quoted "File '" filename "' deleted successfully" ∷ []))

  unfoldable pub cmd_view : ClientState Socket → World → CString → Outcome N
  cmd_view c w flags =
      ask N c w (record (request c.username "VIEW" []) { body = strncpy (buffer_size - 1) flags })
        (λ w1 resp. (w1, paragraph resp.body ∷ []))

  unfoldable pub cmd_info : ClientState Socket → World → CString → Outcome N
  cmd_info c w filename =
      if length filename == 0
      then (w, line "Usage: INFO <filename>" ∷ [])
      else forward c w "INFO" filename
          (λ w1 resp. (w1, title "=== Info for '" filename ∷ (resp.body ++ 10 ∷ []) ∷ []))

  -- Here both failures have one text.
  abbrev pub list_answer : World × Reply → Outcome N
  list_answer (w, not_sent) = (w, connection_lost ∷ [])
  list_answer (w, not_received) = (w, connection_lost ∷ [])
  list_answer (w, response resp) =
      (w, (if succeeded resp then paragraph resp.body else error_line resp.error_msg) ∷ [])

  unfoldable pub cmd_list : ClientState Socket → World → Outcome N
  cmd_list c w = list_answer (exchange N w c.nm_socket (request c.username "LIST" []))

  unfoldable pub cmd_undo : ClientState Socket → World → CString → Outcome N
  cmd_undo c w filename =
      if length filename == 0
      then (w, line "Usage: UNDO <filename>" ∷ [])
      else forward c w "UNDO" filename
          (λ w1 resp. (w1, quoted "Undo successful for '" filename "'" ∷ []))

  -- The content is read from the storage server and executed here.
  abbrev pub executed : CString → World × Option CString → Outcome N
  executed filename (w, none) =
      (w, title "=== Executing '" filename ∷ line "Error: Failed to execute" ∷ [])
  executed filename (w, some out) = (w, title "=== Executing '" filename ∷ out ∷ [])

  unfoldable pub cmd_exec : ClientState Socket → World → CString → Outcome N
  cmd_exec c w filename =
      if length filename == 0
      then (w, line "Usage: EXEC <filename>" ∷ [])
      else ask N c w (request c.username "EXEC" filename) (λ w1 resp.
        deliver_or N (line "Error: Failed to read file") w1 resp.body
          (request c.username "READ" filename)
          (λ w2 ss_resp. executed filename (popen w2 ss_resp.body)))

  unfoldable pub cmd_createfolder : ClientState Socket → World → CString → Outcome N
  cmd_createfolder c w foldername =
      if length foldername == 0
      then (w, line "Usage: CREATEFOLDER <foldername>" ∷ [])
      else ask N c w (request c.username "CREATEFOLDER" foldername)
          (λ w1 resp. (w1, (resp.body ++ 10 ∷ []) ∷ []))

  -- To the name server it is a CHECKPOINT.
  unfoldable pub cmd_listcheckpoints : ClientState Socket → World → CString → Outcome N
  cmd_listcheckpoints c w filename =
      if length filename == 0
      then (w, line "Usage: LISTCHECKPOINTS <filename>" ∷ [])
      else ask N c w (record (request c.username "CHECKPOINT" filename) { body = codes "LIST" })
          (λ w1 resp.
            deliver_or N (line "Error: Failed to list checkpoints") w1 resp.body
              (record (request c.username "LISTCHECKPOINTS" filename) { body = codes "LIST" })
              (λ w2 ss_resp. (w2, paragraph ss_resp.body ∷ [])))
