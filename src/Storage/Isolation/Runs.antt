-- ===== src/Storage/Isolation/Runs.antt =====
-- A file under every sequence of requests for other files.
use network_doc.Base.{
  ℕ, ◌≡◌, ◌∙◌, ◌≢◌, inl, inr, false, Option, none, some, List, [], ◌∷◌, arith, Option-cases,
  some_inj, All, CString, str_eq,
}
use mathlib.Core.Path.{subst}
use network_doc.Message.{Message}
use network_doc.Format.{scan_until, scan_char_word}
use network_doc.Storage.Host.{Host, HostLaws}
use network_doc.Storage.Content.{StorageServerState, get_file_path}
use network_doc.Storage.Handlers.{handle_read, handle_write, handle_info}
use network_doc.Storage.Checkpoints.{
  checkpoint_file, checkpoint_path, list_checkpoints, checkpoint_command, handle_checkpoint_ops,
}
use network_doc.Storage.Dispatch.{
  Operation, create, read, write, delete, stream, info, undo, replicate, checkpoint_ops, unknown,
  operation_of, Arrival, one_response, some_response, perform, serve, serve_all,
}
use network_doc.Storage.Isolation.{
  Apart, Clear, create-Apart, write-Apart, delete-Apart, undo-Apart, replicate-Apart,
  create_checkpoint-Apart, revert-Apart,
}
use network_doc.Storage.Isolation.Names.{
  IsName, Fits, checkpoint_file-fits, file_paths_ne, undo_file_ne, checkpoint_file_ne,
}

module _ (strftime : ℕ → CString) (H : Host) (laws : HostLaws H) (p : CString) where
  open H use {Disk, Db, contents}

  -- No path of the request's file is p: its own, its undo state's or that of a checkpoint.
  abbrev Aside : StorageServerState Disk Db → CString → Type 0
  Aside s filename =
      Clear H laws p s filename
      × ((tag : CString) (now : ℕ)
          → str_eq (checkpoint_path s.data_dir (checkpoint_file filename tag now)) p ≡ false)

  command-Apart :
      (s s' : StorageServerState Disk Db) (m resp : Message) (cmd : CString)
      (param : Option (CString × CString)) (now : ℕ)
      → Aside s m.filename
      → checkpoint_command H strftime s m cmd param now ≡ some (s', resp)
      → Apart H laws p s s'
  unfolding checkpoint_command list_checkpoints
  command-Apart s s' m resp cmd none now c h = ground arith
  command-Apart s s' m resp cmd (some (tag, rest)) now c h = ground (
    arith,
    create_checkpoint-Apart H laws p s m tag now (c.1 tag now),
    revert-Apart H laws p s m tag now c.0,
  )

  ops-Apart :
      (s s' : StorageServerState Disk Db) (m resp : Message) (now : ℕ)
      → Aside s m.filename
      → handle_checkpoint_ops H strftime s m now ≡ some (s', resp)
      → Apart H laws p s s'
  unfolding handle_checkpoint_ops
  ops-Apart s s' m resp now c h = elim (Option-cases (scan_until b'|' m.body)) [
    | inl e ↦ ground arith
    | inr ((cmd, rest), e) ↦
        command-Apart s s' m resp cmd (scan_char_word b'|' rest) now c (ground arith)
  ]

  -- A handler with one response.
  pub of_pair :
      (s s' : StorageServerState Disk Db) (responses : List Message)
      (q : StorageServerState Disk Db × Message)
      → some (one_response q) ≡ some (s', responses)
      → Apart H laws p s q.0
      → Apart H laws p s s'
  of_pair s s' responses (t, resp) h a =
      subst (λ (x : StorageServerState Disk Db × List Message). Apart H laws p s x.0) (some_inj h) a

  pub of_option :
      (s s' : StorageServerState Disk Db) (responses : List Message)
      (o : Option (StorageServerState Disk Db × Message))
      → some_response o ≡ some (s', responses)
      → (resp : Message) × (o ≡ some (s', resp))
  of_option s s' responses none h = cc h
  of_option s s' responses (some (t, resp)) h = (resp, cc h)

  perform-Apart :
      (r : Operation) (s s' : StorageServerState Disk Db) (a : Arrival) (responses : List Message)
      → Aside s a.msg.filename
      → perform strftime H r s a ≡ some (s', responses)
      → Apart H laws p s s'
  unfolding perform handle_read handle_info
  perform-Apart create s s' a rs c h = of_pair s s' rs _ h (create-Apart H laws p s a.msg a.now c.0)
  perform-Apart read s s' a rs c h = ground arith
  perform-Apart write s s' a rs c h =
      let (resp, e) = of_option s s' rs (handle_write H s a.msg a.now) h in
      write-Apart H laws p s s' a.msg resp a.now c.0 e
  perform-Apart delete s s' a rs c h = of_pair s s' rs _ h (delete-Apart H laws p s a.msg c.0)
  perform-Apart stream s s' a rs c h = ground arith
  perform-Apart info s s' a rs c h = ground arith
  perform-Apart undo s s' a rs c h = of_pair s s' rs _ h (undo-Apart H laws p s a.msg a.now c.0)
  perform-Apart replicate s s' a rs c h =
      of_pair s s' rs _ h (replicate-Apart H laws p s a.msg a.now c.0)
  perform-Apart checkpoint_ops s s' a rs c h =
      let (resp, e) = of_option s s' rs (handle_checkpoint_ops H strftime s a.msg a.now) h in
      ops-Apart s s' a.msg resp a.now c e
  perform-Apart unknown s s' a rs c h = ground arith

module _ (strftime : ℕ → CString) (H : Host) (laws : HostLaws H) (dir g : CString) (d : Fits dir)
    (ng : IsName g) where
  open H use {Disk, Db, contents}

  other-Aside :
      (s : StorageServerState Disk Db) (f : CString)
      → s.data_dir ≡ dir
      → IsName f
      → f ≢ g
      → Aside strftime H laws (get_file_path dir g) s f
  other-Aside s f e nf ne = rw e (
    (file_paths_ne dir f g d nf ng ne, undo_file_ne dir f g d nf ng),
    λ tag now.
        checkpoint_file_ne dir (checkpoint_file f tag now) g d (checkpoint_file-fits f tag now) ng,
  )

  -- A file holds the same content after any sequence of requests for other files that the storage server
  -- answers, where all names fit their array and have no slash, and the data directory's name has at
  -- most 240 bytes.
  pub serve_all-isolated :
      (s t : StorageServerState Disk Db) (arrivals : List Arrival)
      → s.data_dir ≡ dir
      → All (λ a. IsName a.msg.filename × (a.msg.filename ≢ g)) arrivals
      → serve_all strftime H s arrivals ≡ some t
      → contents t.disk (get_file_path dir g) ≡ contents s.disk (get_file_path dir g)
  unfolding serve_all serve
  serve_all-isolated s t [] e others h = ground (arith, some_inj h)
  serve_all-isolated s t (a ∷ arrivals) e others h = elim (Option-cases (serve strftime H s a)) [
    | inl n ↦ cc (rw (n, serve_all) at h)
    | inr ((s', responses), n) ↦
        let step =
          perform-Apart strftime H laws (get_file_path dir g) (operation_of a.msg.type) s s' a
            responses (other-Aside s a.msg.filename e others.0.0 others.0.1) n in
        serve_all-isolated s' t arrivals (step.0 ∙ e) others.1 (rw (n, serve_all) at h) ∙ step.1
  ]
