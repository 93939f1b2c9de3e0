-- ===== src/Client/Stream.antt =====
-- `cmd_stream` of src/client/client_commands.c. The loop runs until the storage server ends the stream
-- or the connection breaks: here it has fuel for the messages it receives.
pub mod Delivery
pub mod Ending
pub mod Rounds
use network_doc.Base.{
  ℕ, zero, suc, none, some, List, [], ◌∷◌, ◌++◌, ◌==◌, if◌then◌else◌, length, CString, codes,
  str_eq,
}
use network_doc.Client.Address.{parse_ss_info}
use network_doc.Client.Network.{
  Network, ClientState, Reply, not_sent, not_received, response, Run, undefined, unfinished, done,
  line, error_line, succeeded, request, Outcome, exchange,
}
use network_doc.Client.Commands.{title}

module _ {World : Type 0} where
  abbrev pub print_first : CString → Run (World × List CString) → Run (World × List CString)
  print_first text undefined = undefined
  print_first text unfinished = unfinished
  print_first text (done (w, out)) = done (w, text ∷ out)

module _ (N : Network) where
  open N use {World, Socket, connect, receive, close}

  -- The loop over the messages; one that is neither a word nor the end is passed over.
  unfoldable pub stream_words : ℕ → World → Socket → Run (Outcome N)
  stream_words zero w sock = unfinished
  stream_words (suc fuel) w sock =
      let (w1, received) = receive w sock in
      let rest = stream_words fuel w1 sock in
      elim received [
        | none ↦ done (w1, (10 ∷ line "[Stream interrupted]") ∷ [])
        | some word_msg ↦
            if str_eq word_msg.type (codes "STREAM_END")
            then done (w1, (10 ∷ line "[Stream complete]") ∷ [])
            else if str_eq word_msg.type (codes "STREAM_WORD")
            then print_first (word_msg.body ++ 32 ∷ []) rest
            else rest
      ]

  abbrev pub closed : Socket → Run (Outcome N) → Run (Outcome N)
  closed sock undefined = undefined
  closed sock unfinished = unfinished
  closed sock (done (w, out)) = done (close w sock, out)

  -- Behind the request: the first message must be a success.
  abbrev pub started : ℕ → CString → Socket → World × Reply → Run (Outcome N)
  started fuel filename sock (w, not_sent) =
      done (close w sock, line "Error: Failed to send stream request" ∷ [])
  started fuel filename sock (w, not_received) =
      done (close w sock, line "Error: Stream failed to start" ∷ [])
  started fuel filename sock (w, response resp) =
      if succeeded resp
      then closed sock (print_first (title "=== Streaming '" filename) (stream_words fuel w sock))
      else done (close w sock, line "Error: Stream failed to start" ∷ [])

  -- The replica is not tried, and the array of the address is not set before it is stored.
  unfoldable pub stream_from : ℕ → ClientState Socket → World → CString → CString → Run (Outcome N)
  stream_from fuel c w ss_info filename = elim ((parse_ss_info ss_info).0.ip) [
    | none ↦ undefined
    | some ip ↦
        let (w1, connected) = connect w ip (parse_ss_info ss_info).0.port in
        elim connected [
          | none ↦ done (w1, line "Error: Failed to connect to storage server" ∷ [])
          | some sock ↦
              started fuel filename sock (exchange N w1 sock (request c.username "STREAM" filename))
        ]
  ]

  abbrev pub streamed : ℕ → ClientState Socket → CString → World × Reply → Run (Outcome N)
  streamed fuel c filename (w, not_sent) = done (w, line "Error: Failed to send request" ∷ [])
  streamed fuel c filename (w, not_received) =
      done (w, line "Error: Failed to receive response" ∷ [])
  streamed fuel c filename (w, response resp) =
      if succeeded resp
      then stream_from fuel c w resp.body filename
      else done (w, error_line resp.error_msg ∷ [])

  unfoldable pub cmd_stream : ℕ → ClientState Socket → World → CString → Run (Outcome N)
  cmd_stream fuel c w filename =
      if length filename == 0
      then done (w, line "Usage: STREAM <filename>" ∷ [])
      else streamed fuel c filename
          (exchange N w c.nm_socket (request c.username "STREAM" filename))
