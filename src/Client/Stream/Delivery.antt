-- ===== src/Client/Stream/Delivery.antt =====
-- A stream from the storage server's handler to the client's terminal.
use network_doc.Base.{
  ℕ, zero, suc, ◌+◌, ◌<◌, ◌≡◌, refl, sym, ap, ◌∙◌, Bool, true, Option, some, List, [], ◌∷◌, ◌++◌,
  arith, map, length, length-append, CString, codes, str_eq,
}
use mathlib.Core.Path.{subst}
use network_doc.Message.{Message, data_response}
use network_doc.Text.{max_words_per_sentence, max_sentences, parse_sentences, parse_words}
use network_doc.Storage.Host.{Host}
use network_doc.Storage.Content.{StorageServerState, load_file_content, count_words, metadata}
use network_doc.Storage.Handlers.{validate_basic_request}
use network_doc.Storage.Streams.{stream_order, stream_loop, handle_stream}
use network_doc.Client.Commands.{title}
use network_doc.Client.Network.{Network, response, done, line}
use network_doc.Client.Stream.{print_first, stream_words, closed, started}

-- What the client prints of the words, and that the stream is complete.
abbrev pub printed_words : List CString → List CString
printed_words words = map (λ word. word ++ 32 ∷ []) words ++ (10 ∷ line "[Stream complete]") ∷ []

-- The words that the storage server streams: `parse_words` cuts at most 100 of each of at most 1000
-- sentences, and words beyond these are not sent.
abbrev pub words_of : CString → List CString
words_of content = stream_order (parse_sentences content max_sentences)

length-stream_order :
    (sentences : List CString) → length (stream_order sentences) ≡ count_words sentences
unfolding stream_order count_words
length-stream_order [] = refl
length-stream_order (s ∷ sentences) =
    length-append (parse_words s max_words_per_sentence) (stream_order sentences)
    ∙ ap (λ n. length (parse_words s max_words_per_sentence) + n) (length-stream_order sentences)

-- A stream of which every message is sent.
abbrev pub always : ℕ → Bool
always i = true

module _ (N : Network) where
  open N use {World, Socket, receive, close}

  -- The messages arrive at the socket, one after the other, and leave the world w'.
  pub data Arrive (sock : Socket) (w' : World) : List Message → World → Type 0 where
    all_received : {w : World} → w' ≡ w → Arrive sock w' [] w
    received :
        {m : Message} {ms : List Message} {w : World} (w1 : World)
        → receive w sock ≡ (w1, some m)
        → Arrive sock w' ms w1
        → Arrive sock w' (m ∷ ms) w

  stream_words-arrived :
      (sock : Socket) (w' w : World) (i : ℕ) (words : List CString) (fuel : ℕ)
      → length words < fuel
      → Arrive sock w' (stream_loop always i words) w
      → stream_words N fuel w sock ≡ done (w', printed_words words)
  unfolding stream_words stream_loop str_eq
  stream_words-arrived sock w' w i words zero h a = absurd (omega arith)
  stream_words-arrived sock w' w i [] (suc fuel) h (received w1 e (all_received x)) =
      let v : (receive w sock).0 ≡ w' = ap (λ (q : World × Option Message). q.0) e ∙ sym x in
      let r = ap (λ (q : World × Option Message). q.1) e in
      rw (r, stream_words) (ap (λ (u : World). done (u, printed_words [])) v)
  stream_words-arrived sock w' w i (word ∷ words) (suc fuel) h (received w1 e rest) =
      let v : (receive w sock).0 ≡ w1 = ap (λ (q : World × Option Message). q.0) e in
      let r = ap (λ (q : World × Option Message). q.1) e in
      rw (r, stream_words)
        (ap (λ (u : World). print_first (word ++ 32 ∷ []) (stream_words N fuel u sock)) v
          ∙ ap (print_first (word ++ 32 ∷ []))
              (stream_words-arrived sock w' w1 (i + 1) words fuel (omega arith) rest))

module _ (N : Network) (H : Host) where
  handled :
      (s : StorageServerState H.Disk H.Db) (m : Message) (content : CString)
      → validate_basic_request m ≡ true
      → load_file_content H s m.filename ≡ some content
      → handle_stream H always s m
        ≡ data_response (codes "STREAM_START") ∷ stream_loop always 0 (words_of content)
  unfolding handle_stream
  handled s m content valid there = rw (valid, handle_stream, there, handle_stream) refl

  -- A valid STREAM request for a file that can be read, of which every message arrives: the first is a
  -- success, on which the client prints, in order, the words that the storage server cuts from the content,
  -- at most the first 100 of each of at most the first 1000 sentences, and then that the stream is complete.
  -- They are as many as the metadata of the content count. The client's loop needs one round more than there
  -- are such words.
  pub stream-delivered :
      (s : StorageServerState H.Disk H.Db) (m first : Message) (content filename : CString)
      (rest : List Message) (sock : N.Socket) (w w' : N.World) (fuel now : ℕ)
      → validate_basic_request m ≡ true
      → load_file_content H s m.filename ≡ some content
      → handle_stream H always s m ≡ first ∷ rest
      → Arrive N sock w' rest w
      → length (words_of content) < fuel
      → (started N fuel filename sock (w, response first)
          ≡ done (
            N.close w' sock,
            title "=== Streaming '" filename ∷ printed_words (words_of content),
          ))
        × (length (words_of content) ≡ (metadata m.filename content now).word_count)
  stream-delivered s m first content filename rest sock w w' fuel now valid there h a l =
      let start : Message = data_response (codes "STREAM_START") in
      let loop : List Message = stream_loop always 0 (words_of content) in
      let e : first ∷ rest ≡ start ∷ loop = sym h ∙ handled s m content valid there in
      let f : first ≡ start = cc e in
      let r : rest ≡ loop = cc e in
      let arrived : Arrive N sock w' loop w = subst (λ ms. Arrive N sock w' ms w) r a in
      (
        rw f (
            ap (λ o. closed N sock (print_first (title "=== Streaming '" filename) o))
              (stream_words-arrived N sock w' w 0 (words_of content) fuel l arrived)),
        length-stream_order (parse_sentences content max_sentences),
      )
