-- ===== src/Client/Shell/Rounds.antt =====
-- More rounds for the streams change nothing for a line of the shell.
use network_doc.Base.{
  ℕ, ◌≤◌, ◌≡◌, refl, ap, inl, inr, List, ◌==◌, Bool-cases, Option-cases, length, CString,
}
use network_doc.Text.{trim}
use network_doc.Client.Network.{Network, ClientState}
use network_doc.Client.Stream.Ending.{StreamsEnd}
use network_doc.Client.Stream.Rounds.{cmd_stream-more}
use network_doc.Client.Shell.{
  Command, exit, help, create, read, write, delete, view, info, stream, list, undo, addaccess,
  remaccess, exec, createfolder, checkpoint, listcheckpoints, revert, requestaccess, unknown,
  finished, run_command, run_line, parse_command, command_of,
}

module _ (N : Network) (words more : ℕ) (streams : StreamsEnd N words) (l : words ≤ more) where
  open N use {World, Socket}

  run_command-more :
      (k : Command) (c : ClientState Socket) (w : World) (cmd args : CString) (input : List CString)
      → run_command N more k c w cmd args input ≡ run_command N words k c w cmd args input
  unfolding run_command
  run_command-more stream c w cmd args input =
      ap (finished N input) (cmd_stream-more N words more streams l c w args)
  run_command-more exit c w cmd args input = refl
  run_command-more help c w cmd args input = refl
  run_command-more create c w cmd args input = refl
  run_command-more read c w cmd args input = refl
  run_command-more write c w cmd args input = refl
  run_command-more delete c w cmd args input = refl
  run_command-more view c w cmd args input = refl
  run_command-more info c w cmd args input = refl
  run_command-more list c w cmd args input = refl
  run_command-more undo c w cmd args input = refl
  run_command-more addaccess c w cmd args input = refl
  run_command-more remaccess c w cmd args input = refl
  run_command-more exec c w cmd args input = refl
  run_command-more createfolder c w cmd args input = refl
  run_command-more checkpoint c w cmd args input = refl
  run_command-more listcheckpoints c w cmd args input = refl
  run_command-more revert c w cmd args input = refl
  run_command-more requestaccess c w cmd args input = refl
  run_command-more unknown c w cmd args input = refl

  pub run_line-more :
      (c : ClientState Socket) (w : World) (text : CString) (input : List CString)
      → run_line N more c w text input ≡ run_line N words c w text input
  unfolding run_line
  run_line-more c w text input = elim (Bool-cases (length (trim text) == 0)) [
    | inl e ↦ rw (e, run_line) refl
    | inr e ↦ elim (Option-cases (parse_command (trim text))) [
      | inl x ↦ rw (e, run_line, x, run_line) refl
      | inr ((cmd, args), x) ↦
          rw (e, run_line, x, run_line) (run_command-more (command_of cmd) c w cmd args input)
    ]
  ]
