-- ===== src/Client/Stream/Ending.antt =====
-- A stream ends within its fuel where the messages do.
use network_doc.Base.{
  ℕ, zero, suc, ◌≡◌, inl, inr, true, none, some, [], ◌∷◌, ◌++◌, ◌==◌, Bool-cases, Option-cases,
  length, CString, codes, str_eq, str_eq_iff,
}
use network_doc.Message.{Message}
use network_doc.Client.Network.{
  Network, Reply, not_sent, not_received, response, ClientState, Run, undefined, unfinished, done,
  succeeded, Outcome, exchange, request,
}
use network_doc.Client.Address.{parse_ss_info}
use network_doc.Client.Stream.{
  print_first, closed, started, streamed, stream_from, stream_words, cmd_stream,
}

module _ (N : Network) where
  open N use {World, Socket, connect, receive}

  -- It does not run out of fuel.
  abbrev pub Finishes : Run (Outcome N) → Type 0
  Finishes undefined = Unit
  Finishes unfinished = ⊥
  Finishes (done o) = Unit

  print_first-Finishes :
      (text : CString) (r : Run (Outcome N)) → Finishes r → Finishes (print_first text r)
  print_first-Finishes text undefined h = h
  print_first-Finishes text unfinished h = h
  print_first-Finishes text (done o) h = tt

  closed-Finishes : (sock : Socket) (r : Run (Outcome N)) → Finishes r → Finishes (closed N sock r)
  closed-Finishes sock undefined h = h
  closed-Finishes sock unfinished h = h
  closed-Finishes sock (done o) h = tt

  -- What arrives at a socket: within so many messages there is a STREAM_END, or the connection breaks off.
  pub data EndsWithin (sock : Socket) : ℕ → World → Type 0 where
    breaks_off : {n : ℕ} {w : World} → (receive w sock).1 ≡ none → EndsWithin sock (suc n) w
    stream_end :
        {n : ℕ} {w : World} (m : Message)
        → (receive w sock).1 ≡ some m
        → m.type ≡ codes "STREAM_END"
        → EndsWithin sock (suc n) w
    goes_on :
        {n : ℕ} {w : World} → EndsWithin sock n ((receive w sock).0) → EndsWithin sock (suc n) w

  -- So it is at every socket, at any time.
  abbrev pub StreamsEnd : ℕ → Type 0
  StreamsEnd words = (w : World) (sock : Socket) → EndsWithin sock words w

  -- The loop ends where what arrives does.
  stream_words-Finishes :
      (n : ℕ) (w : World) (sock : Socket) → EndsWithin sock n w → Finishes (stream_words N n w sock)
  unfolding stream_words
  stream_words-Finishes zero w sock h = elim h [ ]
  stream_words-Finishes (suc n) w sock (breaks_off e) = rw (e, stream_words) tt
  stream_words-Finishes (suc n) w sock (stream_end m e t) =
      let x : str_eq m.type (codes "STREAM_END") ≡ true = (str_eq_iff _ _).1 t in
      rw (e, stream_words, x, stream_words) tt
  stream_words-Finishes (suc n) w sock (goes_on h) =
      let rest = stream_words-Finishes n (receive w sock).0 sock h in
      elim (Option-cases ((receive w sock).1)) [
        | inl e ↦ rw (e, stream_words) tt
        | inr (m, e) ↦ elim (Bool-cases (str_eq m.type (codes "STREAM_END"))) [
          | inl x ↦ rw (e, stream_words, x, stream_words) tt
          | inr x ↦ elim (Bool-cases (str_eq m.type (codes "STREAM_WORD"))) [
            | inl y ↦
                rw (e, stream_words, x, y, stream_words)
                  (print_first-Finishes (m.body ++ 32 ∷ []) _ rest)
            | inr y ↦ rw (e, stream_words, x, y, stream_words) rest
          ]
        ]
      ]

  module _ (words : ℕ) (streams : StreamsEnd words) where
    started-Finishes :
        (filename : CString) (sock : Socket) (p : World × Reply)
        → Finishes (started N words filename sock p)
    started-Finishes filename sock (w, not_sent) = tt
    started-Finishes filename sock (w, not_received) = tt
    started-Finishes filename sock (w, response resp) = elim (Bool-cases (succeeded resp)) [
      | inl e ↦ rw e (
          closed-Finishes sock _ (
            print_first-Finishes _ (stream_words N words w sock)
              (stream_words-Finishes words w sock (streams w sock))))
      | inr e ↦ rw e tt
    ]

    stream_from-Finishes :
        (c : ClientState Socket) (w : World) (ss_info filename : CString)
        → Finishes (stream_from N words c w ss_info filename)
    unfolding stream_from
    stream_from-Finishes c w ss_info filename = elim (Option-cases ((parse_ss_info ss_info).0.ip)) [
      | inl e ↦ rw (e, stream_from) tt
      | inr (ip, e) ↦ elim (Option-cases ((connect w ip (parse_ss_info ss_info).0.port).1)) [
        | inl x ↦ rw (e, stream_from, x, stream_from) tt
        | inr (sock, x) ↦
            rw (e, stream_from, x, stream_from)
              (started-Finishes filename sock (
                exchange N (connect w ip (parse_ss_info ss_info).0.port).0 sock
                  (request c.username "STREAM" filename)))
      ]
    ]

    streamed-Finishes :
        (c : ClientState Socket) (filename : CString) (p : World × Reply)
        → Finishes (streamed N words c filename p)
    streamed-Finishes c filename (w, not_sent) = tt
    streamed-Finishes c filename (w, not_received) = tt
    streamed-Finishes c filename (w, response resp) = elim (Bool-cases (succeeded resp)) [
      | inl e ↦ rw e (stream_from-Finishes c w resp.body filename)
      | inr e ↦ rw e tt
    ]

    pub cmd_stream-Finishes :
        (c : ClientState Socket) (w : World) (filename : CString)
        → Finishes (cmd_stream N words c w filename)
    unfolding cmd_stream
    cmd_stream-Finishes c w filename = elim (Bool-cases (length filename == 0)) [
      | inl e ↦ rw (e, cmd_stream) tt
      | inr e ↦
          rw (e, cmd_stream)
            (streamed-Finishes c filename
              (exchange N w c.nm_socket (request c.username "STREAM" filename)))
    ]
