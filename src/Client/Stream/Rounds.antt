-- ===== src/Client/Stream/Rounds.antt =====
-- More rounds than a stream takes change nothing.
use network_doc.Base.{
  ℕ, zero, suc, ◌≤◌, ◌≡◌, refl, ap, inl, inr, true, [], ◌∷◌, ◌++◌, arith, ◌==◌, Bool-cases,
  Option-cases, length, CString, codes, str_eq, str_eq_iff,
}
use network_doc.Client.Network.{
  Network, Reply, not_sent, not_received, response, ClientState, succeeded, exchange, request,
}
use network_doc.Client.Address.{parse_ss_info}
use network_doc.Client.Commands.{title}
use network_doc.Client.Stream.{
  print_first, closed, started, streamed, stream_from, stream_words, cmd_stream,
}
use network_doc.Client.Stream.Ending.{EndsWithin, breaks_off, stream_end, goes_on, StreamsEnd}

module _ (N : Network) where
  open N use {World, Socket, connect, receive}

  stream_words-more :
      (more n : ℕ) (w : World) (sock : Socket)
      → EndsWithin N sock n w
      → n ≤ more
      → stream_words N more w sock ≡ stream_words N n w sock
  unfolding stream_words
  stream_words-more more zero w sock h l = elim h [ ]
  stream_words-more zero (suc n) w sock h l = absurd (omega arith)
  stream_words-more (suc more) (suc n) w sock (breaks_off e) l = rw (e, stream_words) refl
  stream_words-more (suc more) (suc n) w sock (stream_end m e t) l =
      let x : str_eq m.type (codes "STREAM_END") ≡ true = (str_eq_iff _ _).1 t in
      rw (e, stream_words, x, stream_words) refl
  stream_words-more (suc more) (suc n) w sock (goes_on h) l =
      let rest = stream_words-more more n (receive w sock).0 sock h (omega arith) in
      elim (Option-cases ((receive w sock).1)) [
        | inl e ↦ rw (e, stream_words) refl
        | inr (m, e) ↦ elim (Bool-cases (str_eq m.type (codes "STREAM_END"))) [
          | inl x ↦ rw (e, stream_words, x, stream_words) refl
          | inr x ↦ elim (Bool-cases (str_eq m.type (codes "STREAM_WORD"))) [
            | inl y ↦
                rw (e, stream_words, x, y, stream_words) (ap (print_first (m.body ++ 32 ∷ [])) rest)
            | inr y ↦ rw (e, stream_words, x, y, stream_words) rest
          ]
        ]
      ]

  module _ (words more : ℕ) (streams : StreamsEnd N words) (l : words ≤ more) where
    started-more :
        (filename : CString) (sock : Socket) (p : World × Reply)
        → started N more filename sock p ≡ started N words filename sock p
    started-more filename sock (w, not_sent) = refl
    started-more filename sock (w, not_received) = refl
    started-more filename sock (w, response resp) = elim (Bool-cases (succeeded resp)) [
      | inl e ↦ rw e (
          ap (λ r. closed N sock (print_first (title "=== Streaming '" filename) r))
            (stream_words-more more words w sock (streams w sock) l))
      | inr e ↦ rw e refl
    ]

    stream_from-more :
        (c : ClientState Socket) (w : World) (ss_info filename : CString)
        → stream_from N more c w ss_info filename ≡ stream_from N words c w ss_info filename
    unfolding stream_from
    stream_from-more c w ss_info filename = elim (Option-cases ((parse_ss_info ss_info).0.ip)) [
      | inl e ↦ rw (e, stream_from) refl
      | inr (ip, e) ↦ elim (Option-cases ((connect w ip (parse_ss_info ss_info).0.port).1)) [
        | inl x ↦ rw (e, stream_from, x, stream_from) refl
        | inr (sock, x) ↦
            rw (e, stream_from, x, stream_from)
              (started-more filename sock (
                exchange N (connect w ip (parse_ss_info ss_info).0.port).0 sock
                  (request c.username "STREAM" filename)))
      ]
    ]

    streamed-more :
        (c : ClientState Socket) (filename : CString) (p : World × Reply)
        → streamed N more c filename p ≡ streamed N words c filename p
    streamed-more c filename (w, not_sent) = refl
    streamed-more c filename (w, not_received) = refl
    streamed-more c filename (w, response resp) = elim (Bool-cases (succeeded resp)) [
      | inl e ↦ rw e (stream_from-more c w resp.body filename)
      | inr e ↦ rw e refl
    ]

    pub cmd_stream-more :
        (c : ClientState Socket) (w : World) (filename : CString)
        → cmd_stream N more c w filename ≡ cmd_stream N words c w filename
    unfolding cmd_stream
    cmd_stream-more c w filename = elim (Bool-cases (length filename == 0)) [
      | inl e ↦ rw (e, cmd_stream) refl
      | inr e ↦
          rw (e, cmd_stream)
            (streamed-more c filename
              (exchange N w c.nm_socket (request c.username "STREAM" filename)))
    ]
