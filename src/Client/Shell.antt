-- ===== src/Client/Shell.antt =====
-- `init_client`, `connect_to_nameserver`, `run_interactive_shell` and `print_help` of
-- src/client/client_main.c. The terminal is the list of the lines that readline and fgets return.
pub mod Ending
pub mod Rounds
use network_doc.Base.{
  ℕ, zero, suc, ◌-◌, ◌||◌, Option, none, some, List, [], ◌∷◌, ◌++◌, leb, ◌==◌, if◌then◌else◌,
  length, CString, codes, str_eq, ℤ,
}
use network_doc.Message.{buffer_size, max_username, strncpy}
use network_doc.Format.{scan_until, scan_word, skip_blanks}
use network_doc.Text.{trim}
use network_doc.Client.Network.{
  Network, ClientState, Reply, not_sent, not_received, response, Run, undefined, unfinished, done,
  line, succeeded, request, Outcome, exchange,
}
use network_doc.Client.Commands.{
  cmd_create, cmd_read, cmd_delete, cmd_view, cmd_info, cmd_list, cmd_undo, cmd_exec,
  cmd_createfolder, cmd_listcheckpoints,
}
use network_doc.Client.Tags.{cmd_checkpoint, cmd_revert}
use network_doc.Client.Rights.{cmd_addaccess, cmd_remaccess, cmd_requestaccess}
use network_doc.Client.Write.{cmd_write}
use network_doc.Client.Stream.{cmd_stream}

abbrev pub help_lines : List CString
help_lines =
    (10 ∷ line "Available Commands:")
    ∷ (line "==================" ++ 10 ∷ [])
    ∷ (line "File Operations:")
    ∷ (line "  CREATE <filename>                 - Create a new empty file")
    ∷ (line "  READ <filename>                   - Display file contents")
    ∷ (line
        "  WRITE <filename> <sentence#>      - Edit a sentence (then word edits, end with ETIRW)")
    ∷ (line "  DELETE <filename>                 - Delete a file (owner only)")
    ∷ (line "  UNDO <filename>                   - Undo last change to file")
    ∷ (line "  INFO <filename>                   - Show file metadata")
    ∷ (line "  STREAM <filename>                 - Stream file word-by-word")
    ∷ (10 ∷ [])
    ∷ (line "Listing:")
    ∷ (line "  VIEW                              - List your accessible files")
    ∷ (line "  VIEW -a                           - List all files")
    ∷ (line "  VIEW -l                           - List with details")
    ∷ (line "  VIEW -al                          - List all with details")
    ∷ (line "  LIST                              - List all registered users")
    ∷ (10 ∷ [])
    ∷ (line "Access Control:")
    ∷ (line "  ADDACCESS -R <file> <user>        - Grant read access")
    ∷ (line "  ADDACCESS -W <file> <user>        - Grant write access")
    ∷ (line "  REMACCESS <file> <user>           - Revoke access")
    ∷ (line "  REQUESTACCESS <file> <R|W>        - Request access to a file")
    ∷ (10 ∷ [])
    ∷ (line "Advanced:")
    ∷ (line "  EXEC <filename>                   - Execute file as shell script")
    ∷ (line "  CREATEFOLDER <foldername>         - Create a folder")
    ∷ (line "  CHECKPOINT <file> <tag>           - Create a checkpoint")
    ∷ (line "  LISTCHECKPOINTS <file>            - List checkpoints")
    ∷ (line "  REVERT <file> <tag>               - Revert to checkpoint")
    ∷ (10 ∷ [])
    ∷ (line "System:")
    ∷ (line "  help                              - Show this help")
    ∷ (line "  exit                              - Exit the client")
    ∷ (10 ∷ [])
    ∷ []

-- The commands of the shell.
pub data Command : Type 0 where
  exit help create read write delete view info stream list undo : Command
  addaccess remaccess exec createfolder checkpoint listcheckpoints revert requestaccess : Command
  unknown : Command

-- The ladder of strcmp on cmd.
unfoldable pub command_of : CString → Command
command_of cmd =
    if str_eq cmd (codes "exit") || str_eq cmd (codes "quit")
    then exit
    else if str_eq cmd (codes "help")
    then help
    else if str_eq cmd (codes "CREATE")
    then create
    else if str_eq cmd (codes "READ")
    then read
    else if str_eq cmd (codes "WRITE")
    then write
    else if str_eq cmd (codes "DELETE")
    then delete
    else if str_eq cmd (codes "VIEW")
    then view
    else if str_eq cmd (codes "INFO")
    then info
    else if str_eq cmd (codes "STREAM")
    then stream
    else if str_eq cmd (codes "LIST")
    then list
    else if str_eq cmd (codes "UNDO")
    then undo
    else if str_eq cmd (codes "ADDACCESS")
    then addaccess
    else if str_eq cmd (codes "REMACCESS")
    then remaccess
    else if str_eq cmd (codes "EXEC")
    then exec
    else if str_eq cmd (codes "CREATEFOLDER")
    then createfolder
    else if str_eq cmd (codes "CHECKPOINT")
    then checkpoint
    else if str_eq cmd (codes "LISTCHECKPOINTS")
    then listcheckpoints
    else if str_eq cmd (codes "REVERT")
    then revert
    else if str_eq cmd (codes "REQUESTACCESS")
    then requestaccess
    else unknown

abbrev pub line_of : Option (CString × CString) → CString
line_of none = []
line_of (some (text, rest)) = text

-- "%s %[^\n]" into arrays of 32 and of BUFFER_SIZE bytes; `none` where one is overrun. The text is not
-- empty and starts with no blank, so the command is always stored.
unfoldable pub parse_command : CString → Option (CString × CString)
parse_command trimmed = elim (scan_word trimmed) [
  | none ↦ some ([], [])
  | some (cmd, rest) ↦
      let args = line_of (scan_until 10 (skip_blanks rest)) in
      if leb 32 (length cmd) || leb buffer_size (length args) then none else some (cmd, args)
]

-- What a line of the shell leads to.
pub data Next (A : Type 0) : Type 0 where
  stop : Next A
  go : A → Next A

module _ (N : Network) where
  open N use {World, Socket, connect, close}

  -- The world, what was printed, and the unread lines.
  abbrev pub Shell : Type 0
  Shell = Outcome N × List CString

  abbrev pub no_input : List CString → Outcome N → Run (Next Shell)
  no_input input o = done (go (o, input))

  abbrev pub defined : List CString → Option (Outcome N) → Run (Next Shell)
  defined input none = undefined
  defined input (some o) = no_input input o

  abbrev pub finished : List CString → Run (Outcome N) → Run (Next Shell)
  finished input undefined = undefined
  finished input unfinished = unfinished
  finished input (done o) = no_input input o

  abbrev pub reading : Option (Outcome N × List CString) → Run (Next Shell)
  reading none = undefined
  reading (some p) = done (go p)

  unfoldable pub run_command :
      ℕ → Command → ClientState Socket → World → CString → CString → List CString → Run (Next Shell)
  run_command fuel exit c w cmd args input = done stop
  run_command fuel help c w cmd args input = no_input input (w, help_lines)
  run_command fuel create c w cmd args input = no_input input (cmd_create N c w args)
  run_command fuel read c w cmd args input = no_input input (cmd_read N c w args)
  run_command fuel write c w cmd args input = reading (cmd_write N c w args input)
  run_command fuel delete c w cmd args input = no_input input (cmd_delete N c w args)
  run_command fuel view c w cmd args input = no_input input (cmd_view N c w args)
  run_command fuel info c w cmd args input = no_input input (cmd_info N c w args)
  run_command fuel stream c w cmd args input = finished input (cmd_stream N fuel c w args)
  run_command fuel list c w cmd args input = no_input input (cmd_list N c w)
  run_command fuel undo c w cmd args input = no_input input (cmd_undo N c w args)
  run_command fuel addaccess c w cmd args input = defined input (cmd_addaccess N c w args)
  run_command fuel remaccess c w cmd args input = defined input (cmd_remaccess N c w args)
  run_command fuel exec c w cmd args input = no_input input (cmd_exec N c w args)
  run_command fuel createfolder c w cmd args input = no_input input (cmd_createfolder N c w args)
  run_command fuel checkpoint c w cmd args input = defined input (cmd_checkpoint N c w args)
  run_command fuel listcheckpoints c w cmd args input =
      no_input input (cmd_listcheckpoints N c w args)
  run_command fuel revert c w cmd args input = defined input (cmd_revert N c w args)
  run_command fuel requestaccess c w cmd args input = defined input (cmd_requestaccess N c w args)
  run_command fuel unknown c w cmd args input = no_input input (
    w,
    (codes "Unknown command: " ++ (cmd ++ 10 ∷ []))
        ∷ line "Type 'help' for available commands."
        ∷ [],
  )

  -- The body of the loop for one line.
  unfoldable pub run_line :
      ℕ → ClientState Socket → World → CString → List CString → Run (Next Shell)
  run_line fuel c w text input =
      let trimmed = trim text in
      if length trimmed == 0 then no_input input (w, []) else elim (parse_command trimmed) [
        | none ↦ undefined
        | some (cmd, args) ↦ run_command fuel (command_of cmd) c w cmd args input
      ]

  abbrev pub printed_before : List CString → Run (Outcome N) → Run (Outcome N)
  printed_before out undefined = undefined
  printed_before out unfinished = unfinished
  printed_before out (done (w, more)) = done (w, out ++ more)

  -- One round for each line read; `fuel` bounds the rounds, `words` the messages of a stream.
  unfoldable pub run_interactive_shell :
      ℕ → ℕ → ClientState Socket → World → List CString → Run (Outcome N)
  run_interactive_shell words zero c w input = unfinished
  run_interactive_shell words (suc fuel) c w [] = done (w, [])
  run_interactive_shell words (suc fuel) c w (text ∷ input) = elim (run_line words c w text input) [
    | undefined ↦ undefined
    | unfinished ↦ unfinished
    | done stop ↦ done (w, [])
    | done (go ((w1, out), unread)) ↦
        printed_before out (run_interactive_shell words fuel c w1 unread)
  ]

  abbrev pub registered : CString → Socket → World × Reply → Outcome N × Option (ClientState Socket)
  registered username sock (w, not_sent) = ((close w sock, []), none)
  registered username sock (w, not_received) = ((close w sock, []), none)
  registered username sock (w, response resp) =
      if succeeded resp
      then ((w, []), some (record { nm_socket = sock; username = username }))
      else (
        (close w sock, (codes "Registration failed: " ++ (resp.error_msg ++ 10 ∷ [])) ∷ []),
        none,
      )

  -- `init_client`, then `connect_to_nameserver` at NM_IP and NM_PORT; `none` is the result -1.
  unfoldable pub connect_to_nameserver :
      CString → ℤ → World → CString → Outcome N × Option (ClientState Socket)
  connect_to_nameserver nm_ip nm_port w name =
      let username = strncpy (max_username - 1) name in
      let (w1, sock) = connect w nm_ip nm_port in
      elim sock [
        | none ↦ ((w1, []), none)
        | some s ↦ registered username s (exchange N w1 s (request username "REGISTER_CLIENT" []))
      ]
