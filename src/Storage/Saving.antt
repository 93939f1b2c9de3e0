-- ===== src/Storage/Saving.antt =====
-- What a write does to the storage server, as a sequence of saves of the file and of its undo state.
use network_doc.Base.{
  ℕ, ◌≡◌, refl, inl, inr, Option, some, Bool-cases, Option-cases, some_inj, or_same, CString, ℤ,
}
use mathlib.Core.Path.{subst}
use network_doc.Message.{Message}
use network_doc.Storage.Host.{Host}
use network_doc.Storage.Edit.{edit_content}
use network_doc.Storage.Undo.{Edited-cases}
use network_doc.Storage.Content.{
  StorageServerState, save_file_content, load_file_content, save_undo_state,
}
use network_doc.Storage.Handlers.{
  validate_basic_request, parse_edit, keep_undo, write_word, write_whole, handle_write,
}

module _ (H : Host) where
  open H use {Disk, Db}

  -- From a state to the state t by saves of one file and of its undo state.
  pub data Saves (filename : CString) (t : StorageServerState Disk Db)
      : StorageServerState Disk Db → Type 0 where
    ended : {s : StorageServerState Disk Db} → t ≡ s → Saves filename t s
    undone :
        {s : StorageServerState Disk Db} (text : CString)
        → Saves filename t (save_undo_state H s filename text)
        → Saves filename t s
    saved :
        {s : StorageServerState Disk Db} (text : CString) (now : ℕ)
        → Saves filename t (or_same s (save_file_content H s filename text now))
        → Saves filename t s

  -- A handler whose response is known ends in the state of its pair.
  ended_pair :
      {filename : CString} {s s' : StorageServerState Disk Db} {resp resp' : Message}
      → ◌≡◌ {A = Option (StorageServerState Disk Db × Message)} (some (s, resp')) (some (s', resp))
      → Saves filename s' s
  ended_pair {s} {s'} h = ended (cc h)

  write_word-Saves :
      (s s' : StorageServerState Disk Db) (m resp : Message) (n w : ℤ) (new : CString) (now : ℕ)
      → write_word H s m n w new now ≡ some (s', resp)
      → Saves m.filename s' s
  unfolding write_word
  write_word-Saves s s' m resp n w new now h =
      elim (Option-cases (load_file_content H s m.filename)) [
        | inl e ↦ ended_pair (rw (e, write_word) at h)
        | inr (content, e) ↦ undone content (elim (Edited-cases (edit_content content n w new)) [
          | inl x ↦ cc (rw (e, write_word, x, write_word) at h)
          | inr (inl x) ↦ ended_pair (rw (e, write_word, x, write_word) at h)
          | inr (inr (inl x)) ↦ ended_pair (rw (e, write_word, x, write_word) at h)
          | inr (inr (inr (final, x))) ↦
              saved final now (ended_pair (rw (e, write_word, x, write_word) at h))
        ])
      ]

  write_whole-Saves :
      (s : StorageServerState Disk Db) (m : Message) (now : ℕ)
      → Saves m.filename (write_whole H s m now).0 s
  unfolding write_whole
  write_whole-Saves s m now = elim (Option-cases (load_file_content H s m.filename)) [
    | inl e ↦ rw (e, keep_undo) (saved m.body now (ended refl))
    | inr (content, e) ↦ rw (e, keep_undo) (undone content (saved m.body now (ended refl)))
  ]

  pub write-Saves :
      (s s' : StorageServerState Disk Db) (m resp : Message) (now : ℕ)
      → handle_write H s m now ≡ some (s', resp)
      → Saves m.filename s' s
  unfolding handle_write
  write-Saves s s' m resp now h = elim (Bool-cases (validate_basic_request m)) [
    | inr e ↦ ended_pair (rw (e, handle_write) at h)
    | inl e ↦ elim (Option-cases (parse_edit m.body)) [
      | inl x ↦
          subst (λ (q : StorageServerState Disk Db × Message). Saves m.filename q.0 s)
            (some_inj (rw (e, handle_write, x, handle_write) at h)) (write_whole-Saves s m now)
      | inr ((n, (w, new)), x) ↦
          write_word-Saves s s' m resp n w new now (rw (e, handle_write, x, handle_write) at h)
    ]
  ]
