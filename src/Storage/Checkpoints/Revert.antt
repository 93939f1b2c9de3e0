-- ===== src/Storage/Checkpoints/Revert.antt =====
-- A checkpoint stays what it was, and the content comes back.
use network_doc.Base.{
  ℕ, ◌<◌, ◌≡◌, refl, sym, ap, ◌∙◌, ◌≢◌, inl, inr, none, some, Option-cases, or_same, length,
  CString, str_eq_refl,
}
use network_doc.Message.{buffer_size, Message, success}
use network_doc.Storage.Host.{Host, HostLaws, CheckpointRow}
use network_doc.Storage.Content.{
  StorageServerState, get_file_path, save_file_content, load_file_content, metadata,
}
use network_doc.Storage.Handlers.{keep_undo}
use network_doc.Storage.Checkpoints.{
  checkpoint_file, checkpoint_path, create_checkpoint, revert_to, revert_checkpoint,
}
use network_doc.Storage.Saving.{Saves, ended, undone, saved}
use network_doc.Storage.Undo.{Writable, load_all}
use network_doc.Storage.Isolation.{Clear, Saves-Apart}
use network_doc.Storage.Isolation.Names.{
  IsName, Fits, checkpoint_file-fits, file_checkpoint_ne, undo_checkpoint_ne,
}

module _ (H : Host) (laws : HostLaws H) where
  open H use {Disk, Db, contents, write}

  pub keep_undo-dir :
      (t : StorageServerState Disk Db) (filename : CString)
      → (keep_undo H t filename).data_dir ≡ t.data_dir
  keep_undo-dir t filename = elim (Option-cases (load_file_content H t filename)) [
    | inl n ↦ rw (n, keep_undo) refl
    | inr (text, n) ↦ rw (n, keep_undo) refl
  ]

  pub save-there :
      Writable H laws
      → (t : StorageServerState Disk Db) (filename text : CString) (now : ℕ)
      → contents
          (or_same t (save_file_content H t filename text now)).disk
          (get_file_path t.data_dir filename)
        ≡ some text
  unfolding save_file_content
  save-there ok t filename text now =
      let path = get_file_path t.data_dir filename in
      elim (Option-cases (write t.disk path text)) [
        | inl n ↦ absurd (ok t.disk path text n)
        | inr (d, n) ↦
            rw (n, save_file_content)
              (laws.contents-write t.disk d path text path n ∙ rw (str_eq_refl path) refl)
      ]

module _ (H : Host) (laws : HostLaws H) (s : StorageServerState H.Disk H.Db) (m : Message)
    (tag : CString) (at : ℕ) (content : CString) where
  open H use {Disk, Db, contents, write, replace, find_checkpoint, insert_checkpoint}

  abbrev pub file : CString
  file = checkpoint_file m.filename tag at

  abbrev pub path : CString
  path = checkpoint_path s.data_dir file

  -- The checkpoint is on the disk and in the table.
  abbrev pub HasCheckpoint : StorageServerState Disk Db → Type 0
  HasCheckpoint t =
      (t.data_dir ≡ s.data_dir)
      × (contents t.disk path ≡ some content)
      × (find_checkpoint t.db m.filename tag ≡ some (some file))

  pub create-HasCheckpoint :
      Writable H laws
      → ((db : Db) (r : CheckpointRow) → insert_checkpoint db r ≢ none)
      → load_file_content H s m.filename ≡ some content
      → find_checkpoint s.db m.filename tag ≡ some none
      → HasCheckpoint (create_checkpoint H s m tag at).0
  unfolding create_checkpoint
  create-HasCheckpoint ok insertable there fresh =
      let row : CheckpointRow = record {
        filename = m.filename;
        tag = tag;
        checkpoint_file = file;
        created_at = at;
      } in
      elim (Option-cases (write s.disk path content)) [
        | inl n ↦ absurd (ok s.disk path content n)
        | inr (d, n) ↦ elim (Option-cases (insert_checkpoint s.db row)) [
          | inl x ↦ absurd (insertable s.db row x)
          | inr (db, x) ↦
              rw (there, create_checkpoint, n, create_checkpoint, x)
                (
                  refl,
                  laws.contents-write s.disk d path content path n ∙ rw (str_eq_refl path) refl,
                  laws.find-insert_checkpoint s.db db row x fresh,
                )
        ]
      ]

  module _ (fits : Fits s.data_dir) (name : IsName m.filename) where
    clear :
        (t : StorageServerState Disk Db) → t.data_dir ≡ s.data_dir → Clear H laws path t m.filename
    clear t e =
        let fit = checkpoint_file-fits m.filename tag at in
        rw e (
          file_checkpoint_ne s.data_dir m.filename file fits name fit,
          undo_checkpoint_ne s.data_dir m.filename file fits name fit,
        )

    save-find :
        (t : StorageServerState Disk Db) (filename text : CString) (now : ℕ)
        → find_checkpoint (or_same t (save_file_content H t filename text now)).db m.filename tag
          ≡ find_checkpoint t.db m.filename tag
    unfolding save_file_content
    save-find t filename text now =
        elim (Option-cases (write t.disk (get_file_path t.data_dir filename) text)) [
          | inl n ↦ rw (n, save_file_content) refl
          | inr (d, n) ↦ elim (Option-cases (replace t.db (metadata filename text now))) [
            | inl x ↦ rw (n, save_file_content, x) refl
            | inr (db, x) ↦
                rw (n, save_file_content, x)
                  (laws.find-replace t.db db (metadata filename text now) m.filename tag x)
          ]
        ]

    Saves-find :
        (filename : CString) (u : StorageServerState Disk Db) {t : StorageServerState Disk Db}
        → Saves H filename u t
        → find_checkpoint u.db m.filename tag ≡ find_checkpoint t.db m.filename tag
    Saves-find filename u {t} (ended e) = rw e refl
    Saves-find filename u {t} (undone text rest) = Saves-find filename u rest
    Saves-find filename u {t} (saved text now rest) =
        Saves-find filename u rest ∙ save-find t filename text now

    pub Saves-HasCheckpoint :
        (t u : StorageServerState Disk Db)
        → Saves H m.filename u t
        → HasCheckpoint t
        → HasCheckpoint u
    Saves-HasCheckpoint t u saves (e, c, r) =
        let a = Saves-Apart H laws path m.filename u saves (clear t e) in
        (a.0 ∙ e, a.1 ∙ c, Saves-find m.filename u saves ∙ r)

    pub revert-HasCheckpoint :
        Writable H laws
        → (t : StorageServerState Disk Db) (back : Message) (now : ℕ) → length content < buffer_size
        → HasCheckpoint t
        → back.filename ≡ m.filename
        → ((revert_checkpoint H t back tag now).1.error_code ≡ success)
          × (contents
                (revert_checkpoint H t back tag now).0.disk
                (get_file_path s.data_dir m.filename)
              ≡ some content)
    unfolding revert_checkpoint revert_to
    revert-HasCheckpoint ok t back now short (e, c, r) same =
        let t' = keep_undo H t back.filename in
        let found = ap (λ f. find_checkpoint t.db f tag) same ∙ r in
        let read =
          load_all H laws t.disk (checkpoint_path t.data_dir file) content short
            (ap (λ d. contents t.disk (checkpoint_path d file)) e ∙ c) in
        let place : get_file_path s.data_dir m.filename ≡ get_file_path t'.data_dir back.filename =
          ap (λ f. get_file_path s.data_dir f) (sym same)
          ∙ ap (λ d. get_file_path d back.filename)
              (sym (keep_undo-dir H laws t back.filename ∙ e)) in
        rw (found, revert_checkpoint, read, revert_to)
          (
            refl,
            ap (contents (or_same t' (save_file_content H t' back.filename content now)).disk) place
                ∙ save-there H laws ok t' back.filename content now,
          )
