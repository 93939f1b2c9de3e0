-- ===== src/Client/Write.antt =====
-- `cmd_write` of src/client/client_commands.c: the lock, the edits of words read from the terminal, and
-- the new content. The terminal is the list of what the calls of fgets return; its end is the end of
-- file. `none` stands for undefined behaviour: an array that is overrun, or a negative index.
pub mod Edits
pub mod Terminal
pub mod Storing
use network_doc.Base.{
  ℕ, ◌-◌, ◌&&◌, ◌||◌, Option, none, some, List, [], ◌∷◌, ◌++◌, ltb, leb, ◌==◌, if◌then◌else◌,
  String, length, get_elem?, set, CString, codes, str_eq, ℤ, pos, negsuc,
}
use network_doc.Message.{buffer_size, max_filename, Message, strncpy}
use network_doc.Format.{scan_int, show_nat, show_int}
use network_doc.Text.{
  max_sentence, max_word, max_words_per_sentence, max_sentences, trim, parse_sentences, parse_words,
  join,
}
use network_doc.Client.Network.{
  Network, ClientState, Reply, not_sent, not_received, response, line, error_line, succeeded,
  request, Outcome, exchange, contact_storage_server, deliver,
}
use network_doc.Client.Args.{unmatched, overrun, word, scan_into}

-- The array of sentences, the index of the one that is edited, and its text.
pub data Choice : Type 0 where
  invalid negative : Choice
  chosen : List CString → ℕ → CString → Choice

abbrev pub existing : List CString → ℕ → Option CString → Choice
existing sentences n none = invalid
existing sentences n (some s) = chosen sentences n s

-- Sentence 0 of an empty file is new; otherwise the sentence must be there.
unfoldable pub choose_sentence : List CString → ℤ → Choice
choose_sentence sentences (negsuc n) = negative
choose_sentence sentences (pos n) =
    let sentence_count = length sentences in
    if ltb sentence_count n || (n == sentence_count && ltb 0 n)
    then invalid
    else if n == sentence_count
    then chosen (sentences ++ [] ∷ []) n []
    else existing sentences n (get_elem? sentences n)

-- "…%d: '%s'…" and the like
abbrev pub word_line : ℕ → String → CString → String → CString
word_line i between new_word after =
    codes "Word " ++ (show_nat i ++ (codes between ++ (new_word ++ line after)))

-- One word: appended at the end, or in place of another.
unfoldable pub put_word : List CString → ℤ → CString → List CString × CString
put_word words (negsuc i) new_word =
    (words, codes "Error: Invalid word index (0-" ++ (show_nat (length words) ++ line ")"))
put_word words (pos i) new_word =
    if leb i (length words) && ltb i max_words_per_sentence
    then if i == length words
      then (words ++ new_word ∷ [], word_line i " added: '" new_word "'")
      else (set words i new_word, word_line i " updated to '" new_word "'")
    else (words, codes "Error: Invalid word index (0-" ++ (show_nat (length words) ++ line ")"))

abbrev pub bad_format : CString
bad_format = line "Invalid format. Use: <word_index> <new_content>"

-- "%d %s", with the words and what is printed.
unfoldable pub edit_line : List CString → CString → Option (List CString × CString)
edit_line words trimmed = elim (scan_int trimmed) [
  | none ↦ some (words, bad_format)
  | some (word_idx, rest) ↦ elim (scan_into max_word rest) [
    | unmatched ↦ some (words, bad_format)
    | overrun ↦ none
    | word new_word more ↦ some (put_word words word_idx new_word)
  ]
]

-- What the loop leaves: the words, the unread input and what was printed.
pub record Draft : Type 0 where
  pub words : List CString
  pub input : List CString
  pub printed : List CString

abbrev pub prompted : CString → Option Draft → Option Draft
prompted text none = none
prompted text (some e) = some (record e { printed = codes "> " ∷ text ∷ e.printed })

abbrev pub ended : List CString → List CString → Draft
ended words input = record { words = words; input = input; printed = codes "> " ∷ [] }

unfoldable pub edit_loop : List CString → List CString → Option Draft
edit_loop words [] = some (ended words [])
edit_loop words (text ∷ input) =
    if str_eq (trim text) (codes "ETIRW")
    then some (ended words input)
    else elim (edit_line words (trim text)) [
      | none ↦ none
      | some (words', message) ↦ prompted message (edit_loop words' input)
    ]

-- The loops that write the sentence and the content back; new_sentence has MAX_SENTENCE bytes and
-- new_content BUFFER_SIZE.
unfoldable pub compose : List CString → ℕ → List CString → Option CString
compose sentences n words =
    let new_sentence = join words in
    let new_content = join (set sentences n new_sentence) in
    if leb max_sentence (length new_sentence) || leb buffer_size (length new_content)
    then none
    else some new_content

abbrev pub lock_lines : ℤ → List CString
lock_lines n =
    (codes "Lock acquired for sentence " ++ (show_int n ++ line ". Enter word edits:"))
    ∷ line "Format: <word_index> <new_content>"
    ∷ (line "Type 'ETIRW' when done." ++ 10 ∷ [])
    ∷ []

module _ (N : Network) where
  open N use {World, Socket, send, receive}

  -- A command that reads the terminal returns what it left unread.
  abbrev pub Reading : Type 0
  Reading = Outcome N × List CString

  abbrev pub after : List CString → List CString → Outcome N → Reading
  after printed input (w, out) = ((w, printed ++ out), input)

  -- MSG_WRITE_COMMIT, which is "ETIRW"; no result is looked at.
  unfoldable pub commit : ClientState Socket → World → CString → ℤ → Outcome N
  commit c w filename n =
      let msg = record (request c.username "ETIRW" filename) { body = show_int n } in
      let (w1, sent) = send w c.nm_socket msg in
      let (w2, received) = receive w1 c.nm_socket in (w2, line "Write completed successfully" ∷ [])

  abbrev pub write_message : ClientState Socket → CString → CString → Message
  write_message c filename content = record (request c.username "WRITE" filename) {
    body = strncpy (buffer_size - 1) content;
  }

  -- The edits of the chosen sentence, and the new content to the storage server.
  unfoldable pub edit_sentence :
      ClientState Socket
      → World
      → CString
      → CString
      → List CString
      → ℕ
      → CString
      → List CString
      → Option Reading
  edit_sentence c w ss_info filename sentences n sentence input =
      elim (edit_loop (parse_words sentence max_words_per_sentence) input) [
        | none ↦ none
        | some e ↦ elim (compose sentences n e.words) [
          | none ↦ none
          | some new_content ↦ some (
              after ((codes "Current sentence: " ++ (sentence ++ 10 ∷ 10 ∷ [])) ∷ e.printed) e.input
                (deliver N w ss_info (write_message c filename new_content)
                  (λ w1 resp. commit c w1 filename (pos n))))
        ]
      ]

  -- Behind the reading of the content.
  unfoldable pub edit_chosen :
      ClientState Socket → World → CString → CString → ℤ → CString → List CString → Option Reading
  edit_chosen c w ss_info filename sentence_num content input =
      let current_content = strncpy (buffer_size - 1) content in
      let sentences = parse_sentences current_content max_sentences in
      elim (choose_sentence sentences sentence_num) [
        | negative ↦ none
        | invalid ↦ some (
          (
            w,
            (codes "Error: Invalid sentence number (max: "
                  ++ (show_nat (length sentences) ++ line ")"))
                ∷ [],
          ),
          input,
        )
        | chosen all n sentence ↦ edit_sentence c w ss_info filename all n sentence input
      ]

  abbrev pub printed_first : List CString → Option Reading → Option Reading
  printed_first printed none = none
  printed_first printed (some (o, input)) = some (after printed input o)

  abbrev pub with_content :
      ClientState Socket
      → CString
      → CString
      → ℤ
      → List CString
      → World × Option Message
      → Option Reading
  with_content c ss_info filename sentence_num input (w, none) =
      some ((w, line "Error: Could not read current content" ∷ []), input)
  with_content c ss_info filename sentence_num input (w, some resp) =
      if succeeded resp
      then edit_chosen c w ss_info filename sentence_num resp.body input
      else some ((w, line "Error: Could not read current content" ∷ []), input)

  -- Behind the answer to WRITE_LOCK.
  abbrev pub with_lock :
      ClientState Socket → CString → ℤ → List CString → World × Reply → Option Reading
  with_lock c filename sentence_num input (w, not_sent) =
      some ((w, line "Error: Failed to send request" ∷ []), input)
  with_lock c filename sentence_num input (w, not_received) =
      some ((w, line "Error: Failed to receive response" ∷ []), input)
  with_lock c filename sentence_num input (w, response resp) =
      if succeeded resp
      then printed_first (lock_lines sentence_num) (
          with_content c resp.body filename sentence_num input
            (contact_storage_server N w resp.body (request c.username "READ" filename)))
      else some ((w, error_line resp.error_msg ∷ []), input)

  abbrev pub lock_message : ClientState Socket → CString → ℤ → Message
  lock_message c filename sentence_num = record (request c.username "WRITE_LOCK" filename) {
    body = show_int sentence_num;
  }

  abbrev pub write_usage : World → List CString → Option Reading
  write_usage w input = some ((w, line "Usage: WRITE <filename> <sentence_number>" ∷ []), input)

  unfoldable pub cmd_write : ClientState Socket → World → CString → List CString → Option Reading
  cmd_write c w args input = elim (scan_into max_filename args) [
    | unmatched ↦ write_usage w input
    | overrun ↦ none
    | word filename rest ↦ elim (scan_int rest) [
      | none ↦ write_usage w input
      | some (sentence_num, more) ↦
          with_lock c filename sentence_num input
            (exchange N w c.nm_socket (lock_message c filename sentence_num))
    ]
  ]
