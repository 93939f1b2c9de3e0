-- ===== src/Examples/Asking.antt =====
-- Runs of the client: a world is the list of the messages that arrive next, on every socket.
use network_doc.Base.{
  ℕ, zero, suc, ◌<◌, ◌≤◌, ◌≡◌, ◌≢◌, refl, Bool, true, false, Option, none, some, List, [], ◌∷◌,
  arith, length, CString, codes, pos, ℤ,
}
use network_doc.Message.{Message, init_message, success}
use network_doc.NameServer.State.{StorageServerInfo}
use network_doc.NameServer.Edits.{server_and_replica, sentence_info}
use network_doc.Storage.Content.{metadata, load_file_content}
use network_doc.Storage.Handlers.{validate_basic_request}
use network_doc.Storage.Streams.{handle_stream, word_message, end_message}
use network_doc.Client.Address.{parse_ss_info}
use network_doc.Client.Address.Spelled.{IsAddress, address}
use network_doc.Client.Address.RoundTrip.{parse_ss_info-server_info}
use network_doc.Client.Network.{Network, ClientState, unfinished, done, response}
use network_doc.Client.Commands.{title}
use network_doc.Client.Write.{Draft, edit_loop}
use network_doc.Client.Write.Edits.{FitsWords, edit_loop-FitsWords}
use network_doc.Client.Stream.{started}
use network_doc.Client.Stream.Delivery.{
  always, words_of, printed_words, Arrive, all_received, received, stream-delivered,
}
use network_doc.Client.Stream.Ending.{goes_on, stream_end, StreamsEnd}
use network_doc.Client.Shell.{run_interactive_shell}
use network_doc.Client.Shell.Ending.{run_interactive_shell-ends}
use network_doc.Examples.States.{request_message, server}
use network_doc.Examples.Storing.{host, find_text, stored}

abbrev replica : StorageServerInfo
replica = record server { id = pos 1; ip = codes "10.0.0.2"; port = pos 9002 }

server-IsAddress : IsAddress server
unfolding network_doc.Format.is_digit network_doc.Format.show_int network_doc.Format.show_nat
    network_doc.Format.decimal
server-IsAddress = record {
  ip_dotted = (refl, (refl, (refl, (refl, (refl, (refl, (refl, (refl, tt))))))));
  ip_some = omega arith;
  ip_fits = omega arith;
  port_fits = omega arith;
}

replica-IsAddress : IsAddress replica
unfolding network_doc.Format.is_digit network_doc.Format.show_int network_doc.Format.show_nat
    network_doc.Format.decimal
replica-IsAddress = record {
  ip_dotted = (refl, (refl, (refl, (refl, (refl, (refl, (refl, (refl, tt))))))));
  ip_some = omega arith;
  ip_fits = omega arith;
  port_fits = omega arith;
}

two_short : length (network_doc.Format.show_int (pos 2)) ≤ 11
unfolding network_doc.Format.show_int network_doc.Format.show_nat network_doc.Format.decimal
two_short = omega arith

parse_ss_info-server_info_example :
    (parse_ss_info (server_and_replica server (some replica)) ≡ (address server, address replica))
    × (parse_ss_info (sentence_info (pos 2) server (some replica))
        ≡ (address server, address replica))
parse_ss_info-server_info_example =
    parse_ss_info-server_info server (some replica) (pos 2) server-IsAddress replica-IsAddress
      two_short

abbrev typed : List CString
typed = codes "0 Hello" ∷ codes "2 again" ∷ codes "ETIRW" ∷ codes "exit" ∷ []

abbrev words : List CString
words = codes "Hi" ∷ codes "you." ∷ []

abbrev or_draft : Option Draft → Draft
or_draft none = record { words = []; input = []; printed = [] }
or_draft (some d) = d

abbrev draft : Draft
draft = or_draft (edit_loop words typed)

words_typed : edit_loop words typed ≡ some draft
unfolding edit_loop network_doc.Base.str_eq network_doc.Text.trim network_doc.Text.trim_start
    network_doc.Text.is_space network_doc.Client.Write.edit_line network_doc.Format.scan_int
    network_doc.Format.scan_sign network_doc.Format.skip_blanks network_doc.Format.is_blank
    network_doc.Format.scan_nat network_doc.Format.is_digit network_doc.Client.Args.scan_into
    network_doc.Format.scan_word network_doc.Format.span network_doc.Format.scan_digits
    network_doc.Text.trim_end network_doc.Client.Write.put_word network_doc.Format.decimal
    network_doc.Format.show_nat
words_typed = refl

words-FitsWords : FitsWords words
words-FitsWords = record { few = omega arith; short = (omega arith, (omega arith, tt)) }

edit_loop-FitsWords_example :
    FitsWords draft.words × (2 ≤ length draft.words) × (length draft.input ≤ 4)
edit_loop-FitsWords_example = edit_loop-FitsWords words typed draft words-FitsWords words_typed

abbrev next : List Message → List Message × Option Message
next [] = ([], none)
next (m ∷ ms) = (ms, some m)

abbrev script : Network
script = record {
  World = List Message;
  Socket = ℕ;
  connect = λ w ip port. (w, some 1);
  send = λ w sock m. (w, true);
  receive = λ w sock. next w;
  close = λ w sock. w;
  popen = λ w command. (w, none);
}

abbrev stream_request : Message
stream_request = request_message "STREAM" "bob" "notes" ""

abbrev arriving : List Message
arriving = word_message (codes "Hi") ∷ word_message (codes "you.") ∷ end_message ∷ []

abbrev start_message : Message
start_message = record init_message { body = codes "STREAM_START" }

notes_streamed : handle_stream host always stored stream_request ≡ start_message ∷ arriving
unfolding handle_stream validate_basic_request network_doc.Format.contains
    network_doc.Format.starts_with find_text network_doc.Base.str_eq
    network_doc.Storage.Content.get_file_path network_doc.Storage.Streams.stream_loop
    network_doc.Storage.Streams.stream_order network_doc.Text.parse_sentences
    network_doc.Text.sentence_loop network_doc.Text.is_delimiter network_doc.Text.last_sentence
    network_doc.Text.end_sentence network_doc.Text.trim network_doc.Text.trim_start
    network_doc.Text.is_space network_doc.Message.set_message_error network_doc.Text.end_word
    network_doc.Text.last_word network_doc.Text.parse_words network_doc.Text.trim_end
    network_doc.Text.word_loop
notes_streamed = refl

streamed_valid : validate_basic_request stream_request ≡ true
unfolding validate_basic_request network_doc.Format.contains network_doc.Format.starts_with
streamed_valid = refl

notes_loaded : load_file_content host stored (codes "notes") ≡ some (codes "Hi you.")
unfolding find_text network_doc.Base.str_eq network_doc.Storage.Content.get_file_path
notes_loaded = refl

all_arrive : Arrive script 1 [] arriving arriving
all_arrive =
    received (word_message (codes "you.") ∷ end_message ∷ []) refl
      (received (end_message ∷ []) refl (received [] refl (all_received refl)))

two_words : length (words_of (codes "Hi you.")) ≡ 2
unfolding network_doc.Storage.Streams.stream_order network_doc.Text.parse_sentences
    network_doc.Text.sentence_loop network_doc.Text.is_delimiter network_doc.Text.last_sentence
    network_doc.Text.end_sentence network_doc.Text.trim network_doc.Text.trim_start
    network_doc.Text.is_space network_doc.Text.trim_end network_doc.Text.parse_words
    network_doc.Text.word_loop network_doc.Text.end_word network_doc.Text.last_word
two_words = refl

few_words : length (words_of (codes "Hi you.")) < 3
few_words = omega (arith, two_words)

stream-delivered_example :
    (started script 3 (codes "notes") 1 (arriving, response start_message)
      ≡ done (
        [],
        title "=== Streaming '" (codes "notes") ∷ printed_words (words_of (codes "Hi you.")),
      ))
    × (length (words_of (codes "Hi you."))
        ≡ (metadata (codes "notes") (codes "Hi you.") 7).word_count)
stream-delivered_example =
    stream-delivered script host stored stream_request start_message (codes "Hi you.")
      (codes "notes") arriving 1 arriving [] 3 7 streamed_valid notes_loaded notes_streamed
      all_arrive few_words

-- Every stream sends one word, and then its end.
abbrev alternating : Network
alternating = record {
  World = Bool;
  Socket = ℕ;
  connect = λ w ip port. (w, some 1);
  send = λ w sock m. (w, true);
  receive = λ w sock. elim w [
    | true ↦ (false, some (word_message (codes "Hi")))
    | false ↦ (true, some end_message)
  ];
  close = λ w sock. w;
  popen = λ w command. (w, none);
}

alternating-StreamsEnd : StreamsEnd alternating 2
alternating-StreamsEnd true sock = goes_on (stream_end end_message refl refl)
alternating-StreamsEnd false sock = stream_end end_message refl refl

abbrev connected : ClientState ℕ
connected = record { nm_socket = 0; username = codes "bob" }

abbrev session : List CString
session = codes "VIEW" ∷ codes "STREAM notes" ∷ codes "exit" ∷ []

run_interactive_shell-ends_example :
    (run_interactive_shell alternating 2 4 connected true session ≢ unfinished)
    × (run_interactive_shell alternating 5 9 connected true session
        ≡ run_interactive_shell alternating 2 4 connected true session)
run_interactive_shell-ends_example =
    run_interactive_shell-ends alternating 2 4 5 9 connected true session alternating-StreamsEnd
      (omega arith) (omega arith) (omega arith)
