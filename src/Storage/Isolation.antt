-- ===== src/Storage/Isolation.antt =====
-- A request for one file leaves every other path alone.
pub mod Names
pub mod Runs
use network_doc.Base.{
  ℕ, ◌≡◌, refl, sym, ◌∙◌, inl, inr, false, Option, none, some, [], Bool-cases, Option-cases,
  or_same, CString, str_eq,
}
use mathlib.Core.Path.{subst}
use network_doc.Message.{Message}
use network_doc.Storage.Host.{Host, HostLaws}
use network_doc.Storage.Content.{
  StorageServerState, get_file_path, get_undo_path, save_file_content, load_file_content,
  read_buffer, load_undo_state, save_undo_state,
}
use network_doc.Storage.Handlers.{
  validate_basic_request, handle_create, keep_undo, handle_write, handle_delete, handle_undo,
  handle_replicate,
}
use network_doc.Storage.Saving.{Saves, ended, undone, saved, write-Saves}
use network_doc.Storage.Checkpoints.{
  checkpoint_file, checkpoint_path, create_checkpoint, revert_to, revert_checkpoint,
}

module _ (H : Host) (laws : HostLaws H) (p : CString) where
  open H use {Disk, Db, contents, write, unlink, find_checkpoint}

  -- The path p holds what it held, and the data directory is the same.
  abbrev pub Apart : StorageServerState Disk Db → StorageServerState Disk Db → Type 0
  Apart s t = (t.data_dir ≡ s.data_dir) × (contents t.disk p ≡ contents s.disk p)

  -- Neither path of the file is p.
  abbrev pub Clear : StorageServerState Disk Db → CString → Type 0
  Clear s filename =
      (str_eq (get_file_path s.data_dir filename) p ≡ false)
      × (str_eq (get_undo_path s.data_dir filename) p ≡ false)

  pub Apart-trans :
      (s t : StorageServerState Disk Db) {dir : CString} {o : Option CString}
      → Apart s t
      → (dir ≡ t.data_dir) × (o ≡ contents t.disk p)
      → (dir ≡ s.data_dir) × (o ≡ contents s.disk p)
  Apart-trans s t (d, e) (d', e') = (d' ∙ d, e' ∙ e)

  Apart-refl : (s : StorageServerState Disk Db) → Apart s s
  Apart-refl s = (refl, refl)

  Clear-Apart :
      (s t : StorageServerState Disk Db) (filename : CString)
      → Apart s t
      → Clear s filename
      → Clear t filename
  Clear-Apart s t filename (d, e) (a, b) = (
    subst (λ (dir : CString). str_eq (get_file_path dir filename) p ≡ false) (sym d) a,
    subst (λ (dir : CString). str_eq (get_undo_path dir filename) p ≡ false) (sym d) b,
  )

  contents-other :
      (d d' : Disk) (path text : CString)
      → str_eq path p ≡ false
      → write d path text ≡ some d'
      → contents d' p ≡ contents d p
  contents-other d d' path text other h = laws.contents-write d d' path text p h ∙ rw other refl

  pub save-Apart :
      (s : StorageServerState Disk Db) (filename text : CString) (now : ℕ)
      → Clear s filename
      → Apart s (or_same s (save_file_content H s filename text now))
  unfolding save_file_content
  save-Apart s filename text now (a, b) =
      elim (Option-cases (write s.disk (get_file_path s.data_dir filename) text)) [
        | inl n ↦ rw (n, save_file_content) (refl, refl)
        | inr (d, n) ↦
            rw (n, save_file_content)
              (refl, contents-other s.disk d (get_file_path s.data_dir filename) text a n)
      ]

  pub save_undo-Apart :
      (s : StorageServerState Disk Db) (filename text : CString)
      → Clear s filename
      → Apart s (save_undo_state H s filename text)
  save_undo-Apart s filename text (a, b) =
      elim (Option-cases (write s.disk (get_undo_path s.data_dir filename) text)) [
        | inl n ↦ rw n (refl, refl)
        | inr (d, n) ↦
            rw n (refl, contents-other s.disk d (get_undo_path s.data_dir filename) text b n)
      ]

  pub keep_undo-Apart :
      (s : StorageServerState Disk Db) (filename : CString)
      → Clear s filename
      → Apart s (keep_undo H s filename)
  keep_undo-Apart s filename c = elim (Option-cases (load_file_content H s filename)) [
    | inl n ↦ rw (n, keep_undo) (Apart-refl s)
    | inr (text, n) ↦ rw (n, keep_undo) (save_undo-Apart s filename text c)
  ]

  -- The undo state is kept, and a new content saved.
  keep_save-Apart :
      (s : StorageServerState Disk Db) (filename text : CString) (now : ℕ)
      → Clear s filename
      → let s' = keep_undo H s filename in
        Apart s (or_same s' (save_file_content H s' filename text now))
  keep_save-Apart s filename text now c =
      let kept = keep_undo-Apart s filename c in
      Apart-trans s (keep_undo H s filename) kept (
        save-Apart (keep_undo H s filename) filename text now
          (Clear-Apart s (keep_undo H s filename) filename kept c))

  pub create-Apart :
      (s : StorageServerState Disk Db) (m : Message) (now : ℕ)
      → Clear s m.filename
      → Apart s (handle_create H s m now).0
  unfolding handle_create
  create-Apart s m now (a, b) =
      let path = get_file_path s.data_dir m.filename in
      elim (Bool-cases (validate_basic_request m)) [
        | inr e ↦ rw (e, handle_create) (Apart-refl s)
        | inl e ↦ elim (Bool-cases (H.exists s.disk path)) [
          | inl x ↦ rw (e, x, handle_create) (Apart-refl s)
          | inr x ↦ elim (Option-cases (write s.disk path [])) [
            | inl n ↦ rw (e, x, n, handle_create) (Apart-refl s)
            | inr (d, n) ↦ rw (e, x, n, handle_create) (refl, contents-other s.disk d path [] a n)
          ]
        ]
      ]

  pub Saves-Apart :
      (filename : CString) (t : StorageServerState Disk Db) {s : StorageServerState Disk Db}
      → Saves H filename t s
      → Clear s filename
      → Apart s t
  Saves-Apart filename t {s} (ended e) c = rw e (refl, refl)
  Saves-Apart filename t {s} (undone text rest) c =
      let kept = save_undo-Apart s filename text c in
      let s' = save_undo_state H s filename text in
      Apart-trans s s' kept (Saves-Apart filename t rest (Clear-Apart s s' filename kept c))
  Saves-Apart filename t {s} (saved text now rest) c =
      let kept = save-Apart s filename text now c in
      let s' = or_same s (save_file_content H s filename text now) in
      Apart-trans s s' kept (Saves-Apart filename t rest (Clear-Apart s s' filename kept c))

  pub write-Apart :
      (s s' : StorageServerState Disk Db) (m resp : Message) (now : ℕ)
      → Clear s m.filename
      → handle_write H s m now ≡ some (s', resp)
      → Apart s s'
  write-Apart s s' m resp now c h = Saves-Apart m.filename s' (write-Saves H s s' m resp now h) c

  unlink-other :
      (d : Disk) (path : CString)
      → str_eq path p ≡ false
      → contents (or_same d (unlink d path)) p ≡ contents d p
  unlink-other d path other = elim (Option-cases (unlink d path)) [
    | inl n ↦ rw n refl
    | inr (d', n) ↦ rw n (laws.contents-unlink d d' path p n ∙ rw other refl)
  ]

  pub delete-Apart :
      (s : StorageServerState Disk Db) (m : Message)
      → Clear s m.filename
      → Apart s (handle_delete H s m).0
  unfolding handle_delete
  delete-Apart s m (a, b) =
      let path = get_file_path s.data_dir m.filename in
      elim (Bool-cases (validate_basic_request m)) [
        | inr e ↦ rw (e, handle_delete) (Apart-refl s)
        | inl e ↦ elim (Option-cases (unlink s.disk path)) [
          | inl n ↦ rw (e, n, handle_delete) (Apart-refl s)
          | inr (d, n) ↦
              rw (e, n, handle_delete)
                (
                  refl,
                  unlink-other d (get_undo_path s.data_dir m.filename) b
                      ∙ laws.contents-unlink s.disk d path p n
                      ∙ rw a refl,
                )
        ]
      ]

  pub undo-Apart :
      (s : StorageServerState Disk Db) (m : Message) (now : ℕ)
      → Clear s m.filename
      → Apart s (handle_undo H s m now).0
  unfolding handle_undo
  undo-Apart s m now c = elim (Bool-cases (validate_basic_request m)) [
    | inr e ↦ rw (e, handle_undo) (Apart-refl s)
    | inl e ↦ elim (Option-cases (load_undo_state H s m.filename)) [
      | inl n ↦ rw (e, n, handle_undo) (Apart-refl s)
      | inr (text, n) ↦ elim (Option-cases (load_file_content H s m.filename)) [
        | inl x ↦ rw (e, n, x, handle_undo) (Apart-refl s)
        | inr (current, x) ↦ rw (e, n, x, handle_undo) (save-Apart s m.filename text now c)
      ]
    ]
  ]

  pub replicate-Apart :
      (s : StorageServerState Disk Db) (m : Message) (now : ℕ)
      → Clear s m.filename
      → Apart s (handle_replicate H s m now).0
  unfolding handle_replicate
  replicate-Apart s m now c = elim (Option-cases (save_file_content H s m.filename m.body now)) [
    | inl e ↦ rw (e, handle_replicate) (Apart-refl s)
    | inr (t, e) ↦
        rw (e, handle_replicate)
          (subst (λ (o : Option (StorageServerState Disk Db)). Apart s (or_same s o)) e
            (save-Apart s m.filename m.body now c))
  ]

  pub create_checkpoint-Apart :
      (s : StorageServerState Disk Db) (m : Message) (tag : CString) (now : ℕ)
      → str_eq (checkpoint_path s.data_dir (checkpoint_file m.filename tag now)) p ≡ false
      → Apart s (create_checkpoint H s m tag now).0
  unfolding create_checkpoint
  create_checkpoint-Apart s m tag now other =
      let path = checkpoint_path s.data_dir (checkpoint_file m.filename tag now) in
      elim (Option-cases (load_file_content H s m.filename)) [
        | inl e ↦ rw (e, create_checkpoint) (Apart-refl s)
        | inr (content, e) ↦ elim (Option-cases (write s.disk path content)) [
          | inl n ↦ rw (e, create_checkpoint, n, create_checkpoint) (Apart-refl s)
          | inr (d, n) ↦
              rw (e, create_checkpoint, n, create_checkpoint)
                (refl, contents-other s.disk d path content other n)
        ]
      ]

  pub revert-Apart :
      (s : StorageServerState Disk Db) (m : Message) (tag : CString) (now : ℕ)
      → Clear s m.filename
      → Apart s (revert_checkpoint H s m tag now).0
  unfolding revert_checkpoint revert_to
  revert-Apart s m tag now c = elim (Option-cases (find_checkpoint s.db m.filename tag)) [
    | inl e ↦ rw (e, revert_checkpoint) (Apart-refl s)
    | inr (none, e) ↦ rw (e, revert_checkpoint) (Apart-refl s)
    | inr (some file, e) ↦
        elim (Option-cases (read_buffer H s.disk (checkpoint_path s.data_dir file))) [
          | inl n ↦ rw (e, revert_checkpoint, n, revert_to) (Apart-refl s)
          | inr (content, n) ↦
              rw (e, revert_checkpoint, n, revert_to) (keep_save-Apart s m.filename content now c)
        ]
  ]
