-- ===== src/Storage/Checkpoints.antt =====
-- `handle_checkpoint_ops` of src/storageserver/ss_handlers.c. `none` stands for undefined behaviour: a
-- command or tag longer than its array, or a tag that is read although it was not given.
pub mod Revert
use network_doc.Base.{
  ℕ, ◌-◌, Option, none, some, List, [], ◌∷◌, ◌++◌, if◌then◌else◌, or_same, CString, codes, str_eq,
}
use network_doc.Message.{
  max_filename, Message, file_not_found, invalid_param, server_error, checkpoint_not_found,
  init_message, strncpy, error_response, data_response, append_line,
}
use network_doc.Format.{scan_until, scan_char_word, show_nat, command_overflows}
use network_doc.Storage.Host.{Host}
use network_doc.Storage.Content.{
  max_path, StorageServerState, save_file_content, read_buffer, load_file_content,
}
use network_doc.Storage.Handlers.{keep_undo}

-- "%s_%s_%ld" in a buffer of MAX_FILENAME bytes
unfoldable pub checkpoint_file : CString → CString → ℕ → CString
checkpoint_file filename tag now =
    strncpy (max_filename - 1) (filename ++ (b'_' ∷ (tag ++ (b'_' ∷ show_nat now))))

-- "%s/checkpoints/%s" in a buffer of MAX_PATH bytes
unfoldable pub checkpoint_path : CString → CString → CString
checkpoint_path data_dir file = strncpy (max_path - 1) (data_dir ++ (codes "/checkpoints/" ++ file))

-- "  %s - %s\n" in a buffer of 256 bytes
unfoldable pub checkpoint_line : (ℕ → CString) → CString × ℕ → CString
checkpoint_line strftime (tag, created) =
    strncpy 255 (codes "  " ++ (tag ++ (codes " - " ++ (strftime created ++ (10 ∷ [])))))

unfoldable pub checkpoints_loop : (ℕ → CString) → List (CString × ℕ) → CString → CString
checkpoints_loop strftime [] result = result
checkpoints_loop strftime (row ∷ rest) result =
    checkpoints_loop strftime rest (append_line result (checkpoint_line strftime row))

module _ (H : Host) where
  open H use {Disk, Db, write, find_checkpoint, checkpoints, insert_checkpoint}

  -- CREATE|tag
  unfoldable pub create_checkpoint :
      StorageServerState Disk Db → Message → CString → ℕ → StorageServerState Disk Db × Message
  create_checkpoint s msg tag now = elim (load_file_content H s msg.filename) [
    | none ↦ (s, error_response file_not_found "File not found")
    | some content ↦
        let file = checkpoint_file msg.filename tag now in
        elim (write s.disk (checkpoint_path s.data_dir file) content) [
          | none ↦ (s, error_response server_error "Failed to create checkpoint")
          | some disk' ↦ (
            record s {
              disk = disk';
              db = or_same s.db (
                  insert_checkpoint s.db (record {
                    filename = msg.filename;
                    tag = tag;
                    checkpoint_file = file;
                    created_at = now;
                  }));
            },
            data_response (codes "Checkpoint '" ++ (tag ++ codes "' created")),
          )
        ]
  ]

  -- LIST; where the statement is not prepared the response is empty.
  unfoldable pub list_checkpoints :
      (ℕ → CString) → StorageServerState Disk Db → Message → StorageServerState Disk Db × Message
  list_checkpoints strftime s msg = elim (checkpoints s.db msg.filename) [
    | none ↦ (s, init_message)
    | some rows ↦
        (s, data_response (checkpoints_loop strftime rows (codes "Checkpoints:" ++ (10 ∷ []))))
  ]

  -- The file of the checkpoint becomes the content, and the content the undo state.
  unfoldable pub revert_to :
      StorageServerState Disk Db
      → Message
      → CString
      → CString
      → ℕ
      → StorageServerState Disk Db × Message
  revert_to s msg tag file now = elim (read_buffer H s.disk (checkpoint_path s.data_dir file)) [
    | none ↦ (s, error_response checkpoint_not_found "Checkpoint file not found")
    | some content ↦
        let s' = keep_undo H s msg.filename in
        (
          or_same s' (save_file_content H s' msg.filename content now),
          data_response (codes "Reverted to checkpoint '" ++ (tag ++ codes "'")),
        )
  ]

  -- REVERT|tag
  unfoldable pub revert_checkpoint :
      StorageServerState Disk Db → Message → CString → ℕ → StorageServerState Disk Db × Message
  revert_checkpoint s msg tag now = elim (find_checkpoint s.db msg.filename tag) [
    | none ↦ (s, init_message)
    | some none ↦ (s, error_response checkpoint_not_found "Checkpoint not found")
    | some (some file) ↦ revert_to s msg tag file now
  ]

  -- The commands behind the parsing of "%[^|]|%s"; a command that is not known has an empty response.
  unfoldable pub checkpoint_command :
      (ℕ → CString)
      → StorageServerState Disk Db
      → Message
      → CString
      → Option (CString × CString)
      → ℕ
      → Option (StorageServerState Disk Db × Message)
  checkpoint_command strftime s msg cmd param now =
      if str_eq cmd (codes "CREATE")
      then elim param [ none ↦ none | some (tag, _) ↦ some (create_checkpoint s msg tag now) ]
      else if str_eq cmd (codes "LIST")
      then some (list_checkpoints strftime s msg)
      else if str_eq cmd (codes "REVERT")
      then elim param [ none ↦ none | some (tag, _) ↦ some (revert_checkpoint s msg tag now) ]
      else some (s, init_message)

  unfoldable pub handle_checkpoint_ops :
      (ℕ → CString)
      → StorageServerState Disk Db
      → Message
      → ℕ
      → Option (StorageServerState Disk Db × Message)
  handle_checkpoint_ops strftime s msg now = elim (scan_until b'|' msg.body) [
    | none ↦ some (s, error_response invalid_param "Invalid checkpoint command")
    | some (cmd, rest) ↦
        if command_overflows 32 64 (cmd, rest)
        then none
        else checkpoint_command strftime s msg cmd (scan_char_word b'|' rest) now
  ]
