-- ===== src/Client/Shell/Ending.antt =====
-- The shell comes to its end.
use network_doc.Base.{
  ◌⊎◌, ℕ, zero, suc, ◌≤◌, ◌<◌, ◌≡◌, ◌≢◌, refl, ap, inl, inr, Option, none, some, List, [], ◌∷◌,
  arith, ◌==◌, Bool-cases, Option-cases, length, CString,
}
use mathlib.Core.Path.{subst}
use network_doc.Text.{trim}
use network_doc.Client.Network.{Network, ClientState, Run, undefined, unfinished, done, Outcome}
use network_doc.Client.Write.{cmd_write}
use network_doc.Client.Stream.{cmd_stream}
use network_doc.Client.Tags.{cmd_checkpoint, cmd_revert}
use network_doc.Client.Rights.{cmd_addaccess, cmd_remaccess, cmd_requestaccess}
use network_doc.Client.Write.Terminal.{Shrinks, write-Shrinks}
use network_doc.Client.Stream.Ending.{Finishes, StreamsEnd, cmd_stream-Finishes}
use network_doc.Client.Shell.Rounds.{run_line-more}
use network_doc.Client.Shell.{
  Command, exit, help, create, read, write, delete, view, info, stream, list, undo, addaccess,
  remaccess, exec, createfolder, checkpoint, listcheckpoints, revert, requestaccess, unknown, Next,
  stop, go, Shell, defined, finished, reading, run_command, run_line, printed_before,
  run_interactive_shell, parse_command, command_of,
}

module _ (N : Network) where
  open N use {World, Socket, connect}

  -- A command comes to its end, and the terminal has no more lines behind it.
  abbrev Ends : List CString → Run (Next (Shell N)) → Type 0
  Ends input undefined = Unit
  Ends input unfinished = ⊥
  Ends input (done stop) = Unit
  Ends input (done (go (o, unread))) = length unread ≤ length input

  Run-cases :
      (r : Run (Next (Shell N)))
      → (r ≡ undefined)
        ⊎ ((r ≡ unfinished) ⊎ ((r ≡ done stop) ⊎ ((p : Shell N) × (r ≡ done (go p)))))
  Run-cases undefined = inl refl
  Run-cases unfinished = inr (inl refl)
  Run-cases (done stop) = inr (inr (inl refl))
  Run-cases (done (go p)) = inr (inr (inr (p, refl)))

  reading-Ends :
      (input : List CString) (o : Option (Outcome N × List CString))
      → Shrinks N input o
      → Ends input (reading N o)
  reading-Ends input none h = tt
  reading-Ends input (some p) h = h

  defined-Ends : (input : List CString) (o : Option (Outcome N)) → Ends input (defined N input o)
  defined-Ends input none = tt
  defined-Ends input (some o) = omega arith

  finished-Ends :
      (input : List CString) (r : Run (Outcome N)) → Finishes N r → Ends input (finished N input r)
  finished-Ends input undefined h = tt
  finished-Ends input unfinished h = h
  finished-Ends input (done o) h = omega arith

  printed_before-Finishes :
      (out : List CString) (r : Run (Outcome N))
      → Finishes N r
      → Finishes N (printed_before N out r)
  printed_before-Finishes out undefined h = h
  printed_before-Finishes out unfinished h = h
  printed_before-Finishes out (done o) h = tt

  module _ (words : ℕ) (streams : StreamsEnd N words) where
    run_command-Ends :
        (k : Command) (c : ClientState Socket) (w : World) (cmd args : CString)
        (input : List CString)
        → Ends input (run_command N words k c w cmd args input)
    unfolding run_command
    run_command-Ends exit c w cmd args input = tt
    run_command-Ends write c w cmd args input =
        reading-Ends input (cmd_write N c w args input) (write-Shrinks N c w args input)
    run_command-Ends stream c w cmd args input =
        finished-Ends input (cmd_stream N words c w args)
          (cmd_stream-Finishes N words streams c w args)
    run_command-Ends addaccess c w cmd args input = defined-Ends input (cmd_addaccess N c w args)
    run_command-Ends remaccess c w cmd args input = defined-Ends input (cmd_remaccess N c w args)
    run_command-Ends checkpoint c w cmd args input = defined-Ends input (cmd_checkpoint N c w args)
    run_command-Ends revert c w cmd args input = defined-Ends input (cmd_revert N c w args)
    run_command-Ends requestaccess c w cmd args input =
        defined-Ends input (cmd_requestaccess N c w args)
    run_command-Ends help c w cmd args input = omega arith
    run_command-Ends create c w cmd args input = omega arith
    run_command-Ends read c w cmd args input = omega arith
    run_command-Ends delete c w cmd args input = omega arith
    run_command-Ends view c w cmd args input = omega arith
    run_command-Ends info c w cmd args input = omega arith
    run_command-Ends list c w cmd args input = omega arith
    run_command-Ends undo c w cmd args input = omega arith
    run_command-Ends exec c w cmd args input = omega arith
    run_command-Ends createfolder c w cmd args input = omega arith
    run_command-Ends listcheckpoints c w cmd args input = omega arith
    run_command-Ends unknown c w cmd args input = omega arith

    run_line-Ends :
        (c : ClientState Socket) (w : World) (text : CString) (input : List CString)
        → Ends input (run_line N words c w text input)
    unfolding run_line
    run_line-Ends c w text input = elim (Bool-cases (length (trim text) == 0)) [
      | inl e ↦ rw (e, run_line) (omega arith)
      | inr e ↦ elim (Option-cases (parse_command (trim text))) [
        | inl x ↦ rw (e, run_line, x, run_line) tt
        | inr ((cmd, args), x) ↦
            rw (e, run_line, x, run_line) (run_command-Ends (command_of cmd) c w cmd args input)
      ]
    ]

    run-Finishes :
        (fuel : ℕ) (c : ClientState Socket) (w : World) (input : List CString)
        → length input < fuel
        → Finishes N (run_interactive_shell N words fuel c w input)
    unfolding run_interactive_shell
    run-Finishes zero c w input h = absurd (omega arith)
    run-Finishes (suc fuel) c w [] h = tt
    run-Finishes (suc fuel) c w (text ∷ input) h =
        elim (Run-cases (run_line N words c w text input)) [
          | inl e ↦ rw (e, run_interactive_shell) tt
          | inr (inl e) ↦ absurd (subst (Ends input) e (run_line-Ends c w text input))
          | inr (inr (inl e)) ↦ rw (e, run_interactive_shell) tt
          | inr (inr (inr (((w1, out), unread), e))) ↦
              let l : length unread ≤ length input =
                subst (Ends input) e (run_line-Ends c w text input) in
              rw (e, run_interactive_shell)
                (printed_before-Finishes out _ (run-Finishes fuel c w1 unread (omega arith)))
        ]

  run-more :
      (words more_words : ℕ) (streams : StreamsEnd N words) (l : words ≤ more_words) (fuel more : ℕ)
      (c : ClientState Socket) (w : World) (input : List CString)
      → length input < fuel
      → fuel ≤ more
      → run_interactive_shell N more_words more c w input
        ≡ run_interactive_shell N words fuel c w input
  unfolding run_interactive_shell
  run-more words more_words streams l zero more c w input h k = absurd (omega arith)
  run-more words more_words streams l (suc fuel) zero c w input h k = absurd (omega arith)
  run-more words more_words streams l (suc fuel) (suc more) c w [] h k = refl
  run-more words more_words streams l (suc fuel) (suc more) c w (text ∷ input) h k =
      let same = run_line-more N words more_words streams l c w text input in
      elim (Run-cases (run_line N words c w text input)) [
        | inl e ↦ rw (same, e, run_interactive_shell) refl
        | inr (inl e) ↦ rw (same, e, run_interactive_shell) refl
        | inr (inr (inl e)) ↦ rw (same, e, run_interactive_shell) refl
        | inr (inr (inr (((w1, out), unread), e))) ↦
            let n : length unread ≤ length input =
              subst (Ends input) e (run_line-Ends words streams c w text input) in
            rw (same, e, run_interactive_shell)
              (ap (printed_before N out) (
                run-more words more_words streams l fuel more c w1 unread (omega arith)
                  (omega arith)))
      ]

  -- Where on every socket, at any time, a STREAM_END arrives or the connection breaks off within the number
  -- of messages that each stream has fuel for, one round more than the terminal has lines is enough for the
  -- shell: it does not run out of fuel, in its own loop or in that of a stream, so it ends, or it meets
  -- undefined behaviour; and with more fuel for either loop it does the same.
  pub run_interactive_shell-ends :
      (words fuel more_words more : ℕ) (c : ClientState Socket) (w : World) (input : List CString)
      → StreamsEnd N words
      → length input < fuel
      → words ≤ more_words
      → fuel ≤ more
      → (run_interactive_shell N words fuel c w input ≢ unfinished)
        × (run_interactive_shell N more_words more c w input
            ≡ run_interactive_shell N words fuel c w input)
  run_interactive_shell-ends words fuel more_words more c w input streams h l k = (
    λ e. subst (Finishes N) e (run-Finishes words streams fuel c w input h),
    run-more words more_words streams l fuel more c w input h k,
  )
