-- ===== src/Storage/Content.antt =====
-- The files of a storage server: `get_file_path`, `save_file_content`, `load_file_content`,
-- `save_undo_state` and `load_undo_state` of src/storageserver/ss_main.c.
use network_doc.Base.{
  ℕ, ◌+◌, ◌-◌, Option, none, some, List, [], ◌∷◌, ◌++◌, length, or_same, CString, codes,
}
use network_doc.Message.{buffer_size, strncpy}
use network_doc.Text.{max_words_per_sentence, max_sentences, parse_sentences, parse_words}
use network_doc.Storage.Host.{Host, MetadataRow}

abbrev pub max_path : ℕ
max_path = 512

-- The parts of `StorageServerState` that the handlers read and write.
pub record StorageServerState (Disk Db : Type 0) : Type 0 where
  pub data_dir : CString
  pub disk : Disk
  pub db : Db

-- "%s/%s" in a buffer of MAX_PATH bytes
unfoldable pub get_file_path : CString → CString → CString
get_file_path data_dir filename = strncpy (max_path - 1) (data_dir ++ b'/' ∷ filename)

-- "%s/undo/%s"
unfoldable pub get_undo_path : CString → CString → CString
get_undo_path data_dir filename = strncpy (max_path - 1) (data_dir ++ (codes "/undo/" ++ filename))

-- The loop of `save_file_content` over the sentences.
unfoldable pub count_words : List CString → ℕ
count_words [] = 0
count_words (s ∷ rest) = length (parse_words s max_words_per_sentence) + count_words rest

abbrev pub metadata : CString → CString → ℕ → MetadataRow
metadata filename content now = record {
  filename = filename;
  word_count = count_words (parse_sentences content max_sentences);
  char_count = length content;
  sentence_count = length (parse_sentences content max_sentences);
  last_modified = now;
}

module _ (H : Host) where
  open H use {Disk, Db, contents, write, replace}

  -- `none` is the result -1.
  unfoldable pub save_file_content :
      StorageServerState Disk Db → CString → CString → ℕ → Option (StorageServerState Disk Db)
  save_file_content s filename content now =
      elim (write s.disk (get_file_path s.data_dir filename) content) [
        | none ↦ none
        | some disk' ↦ some (record s {
          disk = disk';
          db = or_same s.db (replace s.db (metadata filename content now));
        })
      ]

  -- fread reads one byte less than the buffer holds.
  abbrev pub read_buffer : Disk → CString → Option CString
  read_buffer disk path = elim (contents disk path) [
    | none ↦ none
    | some text ↦ some (strncpy (buffer_size - 1) text)
  ]

  abbrev pub load_file_content : StorageServerState Disk Db → CString → Option CString
  load_file_content s filename = read_buffer s.disk (get_file_path s.data_dir filename)

  abbrev pub load_undo_state : StorageServerState Disk Db → CString → Option CString
  load_undo_state s filename = read_buffer s.disk (get_undo_path s.data_dir filename)

  -- No caller looks at the result.
  abbrev pub save_undo_state :
      StorageServerState Disk Db → CString → CString → StorageServerState Disk Db
  save_undo_state s filename content = record s {
    disk = or_same s.disk (write s.disk (get_undo_path s.data_dir filename) content);
  }
