-- ===== src/Examples/Storing.antt =====
-- A storage server in memory, and runs of its handlers.
use network_doc.Base.{
  str_eq_refl, str_eq_iff, inr, inl, Bool-cases, ap, map, ◌++◌, ◌&&◌, ◌≡◌, refl, true, not, Option,
  none, some, List, [], ◌∷◌, arith, if◌then◌else◌, some_inj, is_some, keep, CString, codes, str_eq,
}
use mathlib.Core.Path.{subst}
use network_doc.Message.{Message, success, init_message, buffer_size}
use network_doc.Format.{contains}
use network_doc.Storage.Host.{CheckpointRow, Host, HostLaws, MetadataRow}
use network_doc.Storage.Content.{StorageServerState, get_file_path}
use network_doc.Storage.Handlers.{
  validate_basic_request, refusal, handle_create, handle_read, handle_write, handle_delete,
  handle_info, handle_undo,
}
use network_doc.Storage.Undo.{Writable, undo-write}
use network_doc.Examples.States.{request_message}

pub record File : Type 0 where
  pub path : CString
  pub text : CString

abbrev Files : Type 0
Files = List File

unfoldable pub find_text : List File → CString → Option CString
find_text [] k = none
find_text (f ∷ files) k = if str_eq f.path k then some f.text else find_text files k

unfoldable pub find_row : List MetadataRow → CString → Option MetadataRow
find_row [] k = none
find_row (r ∷ rows) k = if str_eq r.filename k then some r else find_row rows k

pub record Tables : Type 0 where
  pub rows : List MetadataRow
  pub checkpoints : List CheckpointRow

unfoldable pub find_file : List CheckpointRow → CString → CString → Option CString
find_file [] name tag = none
find_file (r ∷ rows) name tag =
    if str_eq r.filename name && str_eq r.tag tag
    then some r.checkpoint_file
    else find_file rows name tag

abbrev pub host : Host
host = record {
  Disk = List File;
  exists = λ d k. is_some (find_text d k);
  contents = find_text;
  write = λ d k text. some (record { path = k; text = text } ∷ d);
  unlink =
      λ d k. if is_some (find_text d k) then some (keep (λ f. not (str_eq f.path k)) d) else none;
  Db = Tables;
  select = λ db k. some (find_row db.rows k);
  insert = λ db r.
      if is_some (find_row db.rows r.filename)
      then none
      else some (record db { rows = r ∷ db.rows });
  replace = λ db r.
      some (record db { rows = r ∷ keep (λ q. not (str_eq q.filename r.filename)) db.rows });
  remove = λ db k. some (record db { rows = keep (λ q. not (str_eq q.filename k)) db.rows });
  find_checkpoint = λ db name tag. some (find_file db.checkpoints name tag);
  checkpoints = λ db name. some (
      map (λ (r : CheckpointRow). (r.tag, r.created_at))
        (keep (λ r. str_eq r.filename name) db.checkpoints));
  insert_checkpoint = λ db r. some (record db { checkpoints = db.checkpoints ++ r ∷ [] });
}

find-unlinked :
    (files : List File) (path k : CString)
    → find_text (keep (λ f. not (str_eq f.path path)) files) k
      ≡ (if str_eq path k then none else find_text files k)
unfolding find_text
find-unlinked [] path k = ground arith
find-unlinked (f ∷ files) path k = ground (
  arith,
  find-unlinked files path k,
  str_eq_iff f.path path,
  str_eq_iff f.path k,
  str_eq_iff path k,
)

unlinked :
    (d d' : List File) (path k : CString)
    → host.unlink d path ≡ some d'
    → find_text d' k ≡ (if str_eq path k then none else find_text d k)
unlinked d d' path k h = elim (Bool-cases (is_some (find_text d path))) [
  | inr e ↦ absurd (ground arith)
  | inl e ↦
      subst (λ (x : List File). find_text x k ≡ (if str_eq path k then none else find_text d k))
        (some_inj (rw e at h)) (find-unlinked d path k)
]

find-appended :
    (rows : List CheckpointRow) (r : CheckpointRow)
    → find_file rows r.filename r.tag ≡ none
    → find_file (rows ++ r ∷ []) r.filename r.tag ≡ some r.checkpoint_file
unfolding find_file
find-appended [] r h = ground (arith, str_eq_refl r.filename, str_eq_refl r.tag)
find-appended (q ∷ rows) r h = ground (arith, find-appended rows r)

pub host-HostLaws : HostLaws host
unfolding find_text
host-HostLaws = record {
  contents-write = λ d d' path text k h.
      subst
        (λ (x : List File). find_text x k ≡ (if str_eq path k then some text else find_text d k))
        (some_inj h) refl;
  contents-unlink = unlinked;
  find-insert_checkpoint = λ db db' r h fresh.
      subst
        (λ (x : Tables).
          some (find_file x.checkpoints r.filename r.tag) ≡ some (some r.checkpoint_file))
        (some_inj h) (ap some (find-appended db.checkpoints r (some_inj fresh)));
  find-replace = λ db db' r name tag h.
      subst
        (λ (x : Tables).
          some (find_file x.checkpoints name tag) ≡ some (find_file db.checkpoints name tag))
        (some_inj h) refl;
}

pub host-Writable : Writable host host-HostLaws
host-Writable = λ d path text h. absurd (ground (arith, h))

abbrev pub stored : StorageServerState (List File) (Tables)
stored = record {
  data_dir = codes "data";
  disk = record { path = codes "data/notes"; text = codes "Hi you." } ∷ [];
  db = record { rows = []; checkpoints = [] };
}

abbrev word_written : Message
word_written = request_message "WRITE" "bob" "notes" "0|1|all."

abbrev undone : Message
undone = request_message "UNDO" "bob" "notes" ""

-- The state and the response behind the write.
abbrev rewritten : StorageServerState (List File) (Tables) × Message
rewritten = elim (handle_write host stored word_written 50) [
  | none ↦ (stored, init_message)
  | some p ↦ p
]

word_written_valid : validate_basic_request word_written ≡ true
unfolding validate_basic_request network_doc.Format.contains network_doc.Format.starts_with
word_written_valid = refl

undone_valid : validate_basic_request undone ≡ true
unfolding validate_basic_request network_doc.Format.contains network_doc.Format.starts_with
undone_valid = refl

pub notes_stored :
    host.contents stored.disk (get_file_path (codes "data") (codes "notes"))
    ≡ some (codes "Hi you.")
unfolding find_text str_eq get_file_path
notes_stored = refl

write_answered : handle_write host stored word_written 50 ≡ some (rewritten.0, rewritten.1)
unfolding handle_write validate_basic_request network_doc.Format.contains
    network_doc.Format.starts_with network_doc.Storage.Handlers.parse_edit
    network_doc.Format.scan_int network_doc.Format.scan_sign network_doc.Format.skip_blanks
    network_doc.Format.is_blank network_doc.Format.scan_nat network_doc.Format.is_digit
    network_doc.Format.scan_char_int network_doc.Format.scan_digits
    network_doc.Storage.Handlers.scan_line network_doc.Format.scan_until network_doc.Format.span
    network_doc.Storage.Handlers.write_word network_doc.Message.set_message_error
    network_doc.Storage.Content.count_words get_file_path network_doc.Storage.Content.get_undo_path
    network_doc.Storage.Content.save_file_content network_doc.Storage.Edit.edit_content
    network_doc.Storage.Edit.index network_doc.Storage.Edit.rebuild
    network_doc.Storage.Handlers.write_whole network_doc.Text.end_sentence network_doc.Text.end_word
    network_doc.Text.is_delimiter network_doc.Text.is_space network_doc.Text.join
    network_doc.Text.join_loop network_doc.Text.last_sentence network_doc.Text.last_word
    network_doc.Text.parse_sentences network_doc.Text.parse_words network_doc.Text.sentence_loop
    network_doc.Text.trim network_doc.Text.trim_end network_doc.Text.trim_start
    network_doc.Text.word_loop find_text str_eq
write_answered = refl

undo-write_example :
    ((handle_undo host rewritten.0 undone 60).1.error_code ≡ success)
    × (host.contents
          (handle_undo host rewritten.0 undone 60).0.disk
          (get_file_path (codes "data") (codes "notes"))
        ≡ some (codes "Hi you."))
undo-write_example =
    undo-write host host-HostLaws host-Writable stored rewritten.0 word_written undone rewritten.1
      50 60 (codes "Hi you.") word_written_valid undone_valid refl (omega arith) (omega arith)
      notes_stored write_answered
