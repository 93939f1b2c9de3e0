-- ===== src/Storage/Handlers.antt =====
-- The handlers of src/storageserver/ss_handlers.c that keep the files, from a state and a message to the
-- new state and the response that is sent. `none` stands for undefined behaviour.
use network_doc.Base.{
  ℕ, Bool, not, ◌&&◌, ◌||◌, Option, none, some, [], ◌∷◌, ◌++◌, ltb, if◌then◌else◌, length, or_same,
  CString, codes, ℤ, ◌==◌,
}
use network_doc.Message.{
  Message, file_not_found, file_exists, permission_denied, invalid_param, server_error,
  error_response, data_response,
}
use network_doc.Format.{contains, scan_int, scan_char_int, scan_until, show_nat}
use network_doc.Storage.Host.{Host, MetadataRow}
use network_doc.Storage.Edit.{no_sentence, no_word, overflow, edited, edit_content}
use network_doc.Storage.Content.{
  StorageServerState, get_file_path, get_undo_path, save_file_content, load_file_content,
  load_undo_state, save_undo_state,
}

unfoldable pub validate_basic_request : Message → Bool
validate_basic_request msg =
    ltb 0 (length msg.username)
    && (ltb 0 (length msg.filename)
        && not (contains (codes "..") msg.filename || contains (codes "/") msg.filename))

abbrev pub refusal : Message
refusal = error_response permission_denied "Invalid request parameters"

-- "|%[^\n]"
unfoldable pub scan_line : CString → Option CString
scan_line [] = none
scan_line (c ∷ rest) =
    if c == b'|'
    then elim (scan_until 10 rest) [ none ↦ none | some (line, _) ↦ some line ]
    else none

-- "%d|%d|%[^\n]", if all three match
unfoldable pub parse_edit : CString → Option (ℤ × (ℤ × CString))
parse_edit text = elim (scan_int text) [
  | none ↦ none
  | some (sentence_num, rest) ↦ elim (scan_char_int b'|' rest) [
    | none ↦ none
    | some (word_idx, more) ↦ elim (scan_line more) [
      | none ↦ none
      | some new_content ↦ some (sentence_num, (word_idx, new_content))
    ]
  ]
]

abbrev pub info_text : (ℕ → CString) → MetadataRow → CString
info_text strftime r =
    codes "Words: "
    ++ (show_nat r.word_count
        ++ (codes " | Characters: "
            ++ (show_nat r.char_count
                ++ (codes " | Sentences: "
                    ++ (show_nat r.sentence_count
                        ++ (codes " | Modified: " ++ strftime r.last_modified))))))

module _ (H : Host) where
  open H use {Disk, Db, exists, write, unlink, select, insert, remove}

  unfoldable pub handle_create :
      StorageServerState Disk Db → Message → ℕ → StorageServerState Disk Db × Message
  handle_create s msg now =
      if not (validate_basic_request msg)
      then (s, refusal)
      else if exists s.disk (get_file_path s.data_dir msg.filename)
      then (s, error_response file_exists "File already exists")
      else elim (write s.disk (get_file_path s.data_dir msg.filename) []) [
        | none ↦ (s, error_response server_error "Failed to create file")
        | some disk' ↦ (
          record s {
            disk = disk';
            db = or_same s.db (
                insert s.db (record {
                  filename = msg.filename;
                  word_count = 0;
                  char_count = 0;
                  sentence_count = 0;
                  last_modified = now;
                }));
          },
          data_response (codes "File created"),
        )
      ]

  unfoldable pub handle_read :
      StorageServerState Disk Db → Message → StorageServerState Disk Db × Message
  handle_read s msg =
      if not (validate_basic_request msg)
      then (s, refusal)
      else elim (load_file_content H s msg.filename) [
        | none ↦ (s, error_response file_not_found "Failed to read file")
        | some content ↦ (s, data_response content)
      ]

  -- The edit of one word; the undo state is saved before the indices are tested.
  unfoldable pub write_word :
      StorageServerState Disk Db
      → Message
      → ℤ
      → ℤ
      → CString
      → ℕ
      → Option (StorageServerState Disk Db × Message)
  write_word s msg sentence_num word_idx new_content now =
      elim (load_file_content H s msg.filename) [
        | none ↦ some (s, error_response file_not_found "File not found")
        | some current ↦
            let s' = save_undo_state H s msg.filename current in
            elim (edit_content current sentence_num word_idx new_content) [
              | no_sentence ↦ some (s', error_response invalid_param "Invalid sentence number")
              | no_word ↦ some (s', error_response invalid_param "Invalid word index")
              | overflow ↦ none
              | edited content ↦ some (
                or_same s' (save_file_content H s' msg.filename content now),
                data_response (codes "Write successful"),
              )
            ]
      ]

  -- The undo state of a whole write.
  abbrev pub keep_undo : StorageServerState Disk Db → CString → StorageServerState Disk Db
  keep_undo s filename = elim (load_file_content H s filename) [
    | none ↦ s
    | some current ↦ save_undo_state H s filename current
  ]

  -- Any other text becomes the content.
  unfoldable pub write_whole :
      StorageServerState Disk Db → Message → ℕ → StorageServerState Disk Db × Message
  write_whole s msg now =
      let s' = keep_undo s msg.filename in
      (
        or_same s' (save_file_content H s' msg.filename msg.body now),
        data_response (codes "Write successful"),
      )

  unfoldable pub handle_write :
      StorageServerState Disk Db → Message → ℕ → Option (StorageServerState Disk Db × Message)
  handle_write s msg now =
      if not (validate_basic_request msg) then some (s, refusal) else elim (parse_edit msg.body) [
        | none ↦ some (write_whole s msg now)
        | some (sentence_num, (word_idx, new_content)) ↦
            write_word s msg sentence_num word_idx new_content now
      ]

  unfoldable pub handle_delete :
      StorageServerState Disk Db → Message → StorageServerState Disk Db × Message
  handle_delete s msg =
      if not (validate_basic_request msg)
      then (s, refusal)
      else elim (unlink s.disk (get_file_path s.data_dir msg.filename)) [
        | none ↦ (s, error_response file_not_found "Failed to delete file")
        | some disk' ↦ (
          record s {
            disk = or_same disk' (unlink disk' (get_undo_path s.data_dir msg.filename));
            db = or_same s.db (remove s.db msg.filename);
          },
          data_response (codes "File deleted"),
        )
      ]

  -- strftime with localtime is a parameter.
  unfoldable pub handle_info :
      (ℕ → CString) → StorageServerState Disk Db → Message → StorageServerState Disk Db × Message
  handle_info strftime s msg =
      if not (validate_basic_request msg) then (s, refusal) else elim (select s.db msg.filename) [
        | none ↦ (s, error_response server_error "Database error")
        | some none ↦ (s, error_response file_not_found "File metadata not found")
        | some (some r) ↦ (s, data_response (info_text strftime r))
      ]

  unfoldable pub handle_undo :
      StorageServerState Disk Db → Message → ℕ → StorageServerState Disk Db × Message
  handle_undo s msg now =
      if not (validate_basic_request msg)
      then (s, refusal)
      else elim (load_undo_state H s msg.filename) [
        | none ↦ (s, error_response file_not_found "No undo history available")
        | some undo_content ↦ elim (load_file_content H s msg.filename) [
          | none ↦ (s, error_response file_not_found "Current file not found")
          | some current ↦ (
            or_same s (save_file_content H s msg.filename undo_content now),
            data_response (codes "Undo successful"),
          )
        ]
      ]

  -- No request is refused here.
  unfoldable pub handle_replicate :
      StorageServerState Disk Db → Message → ℕ → StorageServerState Disk Db × Message
  handle_replicate s msg now = elim (save_file_content H s msg.filename msg.body now) [
    | none ↦ (s, error_response server_error "Replication failed")
    | some s' ↦ (s', data_response (codes "Replicated successfully"))
  ]
