-- ===== src/Storage/Undo.antt =====
-- A write followed by an undo.
use network_doc.Base.{
  ℕ, ◌<◌, ◌≡◌, refl, sym, ap, ◌≢◌, ◌⊎◌, inl, inr, true, none, some, arith, Option-cases, some_inj,
  length, take_all, or_same, CString, str_eq_iff, str_eq_refl, ℤ,
}
use mathlib.Core.Path.{subst}
use network_doc.Message.{buffer_size, Message, success}
use network_doc.Storage.Host.{Host, HostLaws}
use network_doc.Storage.Edit.{Edited, no_sentence, no_word, overflow, edited, edit_content}
use network_doc.Storage.Content.{
  StorageServerState, get_file_path, get_undo_path, save_file_content, read_buffer,
  load_file_content, save_undo_state,
}
use network_doc.Storage.Paths.{PathsFit, paths_ne}
use network_doc.Storage.Handlers.{
  validate_basic_request, parse_edit, keep_undo, write_word, write_whole, handle_write, handle_undo,
}

pub Edited-cases :
    (r : Edited)
    → (r ≡ overflow)
      ⊎ ((r ≡ no_sentence) ⊎ ((r ≡ no_word) ⊎ ((content : CString) × (r ≡ edited content))))
Edited-cases overflow = inl refl
Edited-cases no_sentence = inr (inl refl)
Edited-cases no_word = inr (inr (inl refl))
Edited-cases (edited content) = inr (inr (inr (content, refl)))

module _ (H : Host) (laws : HostLaws H) where
  open H use {Disk, Db, contents, write}

  -- Every file can be written.
  abbrev pub Writable : Type 0
  Writable = (d : Disk) (path text : CString) → write d path text ≢ none

  -- The undo state of a file holds a content, and the file is there.
  abbrev HasUndo : StorageServerState Disk Db → CString → CString → CString → Type 0
  HasUndo s dir filename content =
      (s.data_dir ≡ dir)
      × (contents s.disk (get_undo_path dir filename) ≡ some content)
      × ((now : CString) × (contents s.disk (get_file_path dir filename) ≡ some now))

  save_undo-HasUndo :
      Writable
      → (s : StorageServerState Disk Db) (filename content : CString) → PathsFit s.data_dir filename
      → contents s.disk (get_file_path s.data_dir filename) ≡ some content
      → HasUndo (save_undo_state H s filename content) s.data_dir filename content
  save_undo-HasUndo ok s filename content fit h =
      elim (Option-cases (write s.disk (get_undo_path s.data_dir filename) content)) [
        | inl e ↦ absurd (ok s.disk (get_undo_path s.data_dir filename) content e)
        | inr (d, e) ↦
            let undo = get_undo_path s.data_dir filename in
            let path = get_file_path s.data_dir filename in
            rw e (
              refl,
              ground (arith, laws.contents-write s.disk d undo content undo e, str_eq_refl undo),
              (
                content,
                ground (
                  arith,
                  laws.contents-write s.disk d undo content path e,
                  paths_ne s.data_dir filename fit,
                ),
              ),
            )
      ]

  save-HasUndo :
      (s : StorageServerState Disk Db) (dir filename content text : CString) (now : ℕ)
      → PathsFit dir filename
      → HasUndo s dir filename content
      → HasUndo (or_same s (save_file_content H s filename text now)) dir filename content
  unfolding save_file_content
  save-HasUndo s dir filename content text now fit (e, u, p) =
      let undo = get_undo_path dir filename in
      let path = get_file_path dir filename in
      elim (Option-cases (write s.disk path text)) [
        | inl n ↦ rw (e, save_file_content, n, save_file_content) (refl, u, p)
        | inr (d, n) ↦
            rw (e, save_file_content, n, save_file_content)
              (
                e,
                ground (
                  arith,
                  laws.contents-write s.disk d path text undo n,
                  paths_ne dir filename fit,
                  str_eq_iff path undo,
                  str_eq_iff undo path,
                ),
                (
                  text,
                  ground (arith, laws.contents-write s.disk d path text path n, str_eq_refl path),
                ),
              )
      ]

  pub load_all :
      (disk : Disk) (path content : CString)
      → length content < buffer_size
      → contents disk path ≡ some content
      → read_buffer H disk path ≡ some content
  load_all disk path content short h =
      rw (h, read_buffer) (ap some (take_all 65535 content (omega arith)))

  module _ (ok : Writable) (s : StorageServerState Disk Db) (m : Message) (content : CString)
      (fit : PathsFit s.data_dir m.filename) (short : length content < buffer_size)
      (there : contents s.disk (get_file_path s.data_dir m.filename) ≡ some content) where
    abbrev kept : StorageServerState Disk Db
    kept = save_undo_state H s m.filename content

    kept-HasUndo : HasUndo kept s.data_dir m.filename content
    kept-HasUndo = save_undo-HasUndo ok s m.filename content fit there

    loaded : load_file_content H s m.filename ≡ some content
    loaded = load_all s.disk (get_file_path s.data_dir m.filename) content short there

    write_word-HasUndo :
        (n w : ℤ) (new : CString) (now : ℕ) (s' : StorageServerState Disk Db) (resp : Message)
        → write_word H s m n w new now ≡ some (s', resp)
        → HasUndo s' s.data_dir m.filename content
    unfolding write_word
    write_word-HasUndo n w new now s' resp h = elim (Edited-cases (edit_content content n w new)) [
      | inl e ↦ cc (rw (loaded, write_word, e, write_word) at h)
      | inr (inl e) ↦
          subst
            (λ (p : StorageServerState Disk Db × Message).
              HasUndo p.0 s.data_dir m.filename content)
            (some_inj (rw (loaded, write_word, e, write_word) at h)) kept-HasUndo
      | inr (inr (inl e)) ↦
          subst
            (λ (p : StorageServerState Disk Db × Message).
              HasUndo p.0 s.data_dir m.filename content)
            (some_inj (rw (loaded, write_word, e, write_word) at h)) kept-HasUndo
      | inr (inr (inr (final, e))) ↦
          subst
            (λ (p : StorageServerState Disk Db × Message).
              HasUndo p.0 s.data_dir m.filename content)
            (some_inj (rw (loaded, write_word, e, write_word) at h))
            (save-HasUndo kept s.data_dir m.filename content final now fit kept-HasUndo)
    ]

    write_whole-HasUndo :
        (now : ℕ) → HasUndo (write_whole H s m now).0 s.data_dir m.filename content
    unfolding write_whole
    write_whole-HasUndo now =
        rw (loaded, keep_undo)
          (save-HasUndo kept s.data_dir m.filename content m.body now fit kept-HasUndo)

    write-HasUndo :
        (now : ℕ) (s' : StorageServerState Disk Db) (resp : Message)
        → validate_basic_request m ≡ true
        → handle_write H s m now ≡ some (s', resp)
        → HasUndo s' s.data_dir m.filename content
    unfolding handle_write
    write-HasUndo now s' resp valid h = elim (Option-cases (parse_edit m.body)) [
      | inl e ↦
          subst
            (λ (p : StorageServerState Disk Db × Message).
              HasUndo p.0 s.data_dir m.filename content)
            (some_inj (rw (valid, handle_write, e, handle_write) at h)) (write_whole-HasUndo now)
      | inr ((n, (w, new)), e) ↦
          write_word-HasUndo n w new now s' resp (rw (valid, handle_write, e, handle_write) at h)
    ]

  undo-HasUndo :
      Writable
      → (s : StorageServerState Disk Db) (u : Message) (later : ℕ) (dir content : CString)
      → validate_basic_request u ≡ true
      → length content < buffer_size
      → HasUndo s dir u.filename content
      → ((handle_undo H s u later).1.error_code ≡ success)
        × (contents (handle_undo H s u later).0.disk (get_file_path dir u.filename) ≡ some content)
  unfolding handle_undo save_file_content
  undo-HasUndo ok s u later dir content valid short (e, saved, (now, there)) =
      let path = get_file_path dir u.filename in
      elim (Option-cases (write s.disk path content)) [
        | inl n ↦ absurd (ok s.disk path content n)
        | inr (d, n) ↦ ground (
          arith,
          n,
          valid,
          e,
          load_all s.disk (get_undo_path dir u.filename) content short saved,
          there,
          laws.contents-write s.disk d path content path n,
          str_eq_refl path,
        )
      ]

  -- Where every file can be written, a valid write that is answered, to a file whose content and paths
  -- fit their buffers, followed by a valid undo for the same file: the undo succeeds, and the file has
  -- the content that it had before the write.
  pub undo-write :
      Writable
      → (s s' : StorageServerState Disk Db) (m u resp : Message) (now later : ℕ) (content : CString)
      → validate_basic_request m ≡ true
      → validate_basic_request u ≡ true
      → u.filename ≡ m.filename
      → PathsFit s.data_dir m.filename
      → length content < buffer_size
      → contents s.disk (get_file_path s.data_dir m.filename) ≡ some content
      → handle_write H s m now ≡ some (s', resp)
      → ((handle_undo H s' u later).1.error_code ≡ success)
        × (contents (handle_undo H s' u later).0.disk (get_file_path s.data_dir m.filename)
            ≡ some content)
  undo-write ok s s' m u resp now later content valid valid' same fit short there h =
      subst
        (λ (f : CString).
          ((handle_undo H s' u later).1.error_code ≡ success)
          × (contents (handle_undo H s' u later).0.disk (get_file_path s.data_dir f)
              ≡ some content))
        same
        (undo-HasUndo ok s' u later s.data_dir content valid' short (
          subst (λ (f : CString). HasUndo s' s.data_dir f content) (sym same)
            (write-HasUndo ok s m content fit short there now s' resp valid h)))
