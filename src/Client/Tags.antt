-- ===== src/Client/Tags.antt =====
-- The commands of src/client/client_commands.c that take a file name and a tag. `none` stands for an
-- argument that overruns its array.
pub mod Revert
use network_doc.Base.{Option, none, some, [], ◌∷◌, ◌++◌, String, CString, codes}
use network_doc.Message.{max_filename, Message}
use network_doc.Client.Network.{Network, ClientState, line, request, Outcome, ask, deliver_or}
use network_doc.Client.Args.{scan_words, two_words}

-- The message for the operation on the tag.
abbrev pub tagged : CString → String → String → CString → CString → Message
tagged username type operation filename tag = record (request username type filename) {
  body = codes operation ++ (b'|' ∷ tag);
}

module _ (N : Network) where
  open N use {World, Socket}

  unfoldable pub checkpoint_of : ClientState Socket → World → CString → CString → Outcome N
  checkpoint_of c w filename tag =
      ask N c w (tagged c.username "CHECKPOINT" "CREATE" filename tag) (λ w1 resp.
        deliver_or N (line "Error: Failed to create checkpoint") w1 resp.body
          (tagged c.username "CHECKPOINT" "CREATE" filename tag)
          (λ w2 ss_resp. (w2, (ss_resp.body ++ 10 ∷ []) ∷ [])))

  unfoldable pub cmd_checkpoint : ClientState Socket → World → CString → Option (Outcome N)
  cmd_checkpoint c w args = elim (two_words (scan_words (max_filename ∷ 64 ∷ []) args)) [
    | none ↦ none
    | some none ↦ some (w, line "Usage: CHECKPOINT <filename> <tag>" ∷ [])
    | some (some (filename, tag)) ↦ some (checkpoint_of c w filename tag)
  ]

  -- To the name server it is a CHECKPOINT.
  unfoldable pub revert_of : ClientState Socket → World → CString → CString → Outcome N
  revert_of c w filename tag =
      ask N c w (tagged c.username "CHECKPOINT" "REVERT" filename tag) (λ w1 resp.
        deliver_or N (line "Error: Failed to revert") w1 resp.body
          (tagged c.username "REVERT" "REVERT" filename tag)
          (λ w2 ss_resp. (w2, (ss_resp.body ++ 10 ∷ []) ∷ [])))

  unfoldable pub cmd_revert : ClientState Socket → World → CString → Option (Outcome N)
  cmd_revert c w args = elim (two_words (scan_words (max_filename ∷ 64 ∷ []) args)) [
    | none ↦ none
    | some none ↦ some (w, line "Usage: REVERT <filename> <tag>" ∷ [])
    | some (some (filename, tag)) ↦ some (revert_of c w filename tag)
  ]
