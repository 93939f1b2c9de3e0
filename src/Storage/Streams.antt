-- ===== src/Storage/Streams.antt =====
-- `handle_stream` of src/storageserver/ss_handlers.c: the messages that it sends for one request.
use network_doc.Base.{
  ℕ, ◌+◌, Bool, not, none, some, List, [], ◌∷◌, ◌++◌, if◌then◌else◌, CString, codes,
}
use network_doc.Message.{Message, file_not_found, init_message, error_response, data_response}
use network_doc.Text.{max_words_per_sentence, max_sentences, parse_sentences, parse_words}
use network_doc.Storage.Host.{Host}
use network_doc.Storage.Content.{StorageServerState, load_file_content}
use network_doc.Storage.Handlers.{validate_basic_request, refusal}

-- The words in the order of the two loops.
unfoldable pub stream_order : List CString → List CString
stream_order [] = []
stream_order (s ∷ sentences) = parse_words s max_words_per_sentence ++ stream_order sentences

abbrev pub word_message : CString → Message
word_message word = record init_message { type = codes "STREAM_WORD"; body = word }

abbrev pub end_message : Message
end_message = record init_message { type = codes "STREAM_END" }

-- The loops and the end marker. `delivered i` says whether the message of the i-th word is sent; the
-- first that is not ends the stream.
unfoldable pub stream_loop : (ℕ → Bool) → ℕ → List CString → List Message
stream_loop delivered i [] = end_message ∷ []
stream_loop delivered i (word ∷ words) =
    let rest = stream_loop delivered (i + 1) words in
    if delivered i then word_message word ∷ rest else []

module _ (H : Host) where
  open H use {Disk, Db}

  unfoldable pub handle_stream : (ℕ → Bool) → StorageServerState Disk Db → Message → List Message
  handle_stream delivered s msg =
      if not (validate_basic_request msg)
      then refusal ∷ []
      else elim (load_file_content H s msg.filename) [
        | none ↦ error_response file_not_found "Failed to read file" ∷ []
        | some content ↦
            data_response (codes "STREAM_START")
            ∷ stream_loop delivered 0 (stream_order (parse_sentences content max_sentences))
      ]
