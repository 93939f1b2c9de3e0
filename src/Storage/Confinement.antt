-- ===== src/Storage/Confinement.antt =====
-- No request leaves the data directory where the handlers validate it.
use network_doc.Base.{
  ℕ, ◌<◌, ◌≡◌, ◌∙◌, ◌≢◌, refl, false, true, inl, inr, some, List, [], ◌∷◌, arith, All, Bool-cases,
  Option-cases, some_inj, length, CString, codes,
}
use mathlib.Core.Path.{subst}
use network_doc.Message.{Message}
use network_doc.Format.{contains}
use network_doc.Storage.Host.{Host, HostLaws}
use network_doc.Storage.Content.{StorageServerState, get_file_path, get_undo_path}
use network_doc.Storage.Handlers.{
  validate_basic_request, handle_create, handle_read, handle_write, handle_delete, handle_info,
  handle_undo,
}
use network_doc.Storage.Dispatch.{
  Operation, create, read, write, delete, stream, info, undo, replicate, checkpoint_ops, unknown,
  operation_of, Arrival, perform, serve, serve_all,
}
use network_doc.Storage.Isolation.{
  Apart, Clear, create-Apart, write-Apart, delete-Apart, undo-Apart,
}
use network_doc.Storage.Isolation.Names.{differ}
use network_doc.Storage.Isolation.Runs.{of_pair, of_option}

-- The name of a file directly in the data directory: it has neither ".." nor a slash.
pub record IsSafe (filename : CString) : Type 0 where
  pub some_character : 0 < length filename
  pub no_dots : contains (codes "..") filename ≡ false
  pub no_slash : contains (codes "/") filename ≡ false

-- The path is neither that of a file with such a name nor that of its undo state.
abbrev pub Outside : CString → CString → Type 0
Outside dir p =
    (filename : CString)
    → IsSafe filename
    → (get_file_path dir filename ≢ p) × (get_undo_path dir filename ≢ p)

-- The requests whose handlers change nothing before they have validated, or change nothing at all.
abbrev pub Validated : Operation → Type 0
Validated replicate = ⊥
Validated checkpoint_ops = ⊥
Validated create = Unit
Validated read = Unit
Validated write = Unit
Validated delete = Unit
Validated stream = Unit
Validated info = Unit
Validated undo = Unit
Validated unknown = Unit

validate-IsSafe : (m : Message) → validate_basic_request m ≡ true → IsSafe m.filename
unfolding validate_basic_request
validate-IsSafe m h = record {
  some_character = ground arith;
  no_dots = ground arith;
  no_slash = ground arith;
}

module _ (strftime : ℕ → CString) (H : Host) (laws : HostLaws H) (dir p : CString)
    (outside : Outside dir p) where
  open H use {Disk, Db, contents}

  valid-Clear :
      (s : StorageServerState Disk Db) (m : Message)
      → s.data_dir ≡ dir
      → validate_basic_request m ≡ true
      → Clear H laws p s m.filename
  valid-Clear s m e valid =
      let (a, b) = outside m.filename (validate-IsSafe m valid) in
      rw e (differ (get_file_path dir m.filename) p a, differ (get_undo_path dir m.filename) p b)

  confined_create :
      (s : StorageServerState Disk Db) (m : Message) (now : ℕ)
      → s.data_dir ≡ dir
      → Apart H laws p s (handle_create H s m now).0
  unfolding handle_create
  confined_create s m now e = elim (Bool-cases (validate_basic_request m)) [
    | inl v ↦ create-Apart H laws p s m now (valid-Clear s m e v)
    | inr v ↦ rw (v, handle_create) (refl, refl)
  ]

  confined_write :
      (s s' : StorageServerState Disk Db) (m resp : Message) (now : ℕ)
      → s.data_dir ≡ dir
      → handle_write H s m now ≡ some (s', resp)
      → Apart H laws p s s'
  unfolding handle_write
  confined_write s s' m resp now e h = elim (Bool-cases (validate_basic_request m)) [
    | inl v ↦ write-Apart H laws p s s' m resp now (valid-Clear s m e v) h
    | inr v ↦
        subst (λ (q : StorageServerState Disk Db × Message). Apart H laws p s q.0)
          (some_inj (rw (v, handle_write) at h)) (refl, refl)
  ]

  confined_delete :
      (s : StorageServerState Disk Db) (m : Message)
      → s.data_dir ≡ dir
      → Apart H laws p s (handle_delete H s m).0
  unfolding handle_delete
  confined_delete s m e = elim (Bool-cases (validate_basic_request m)) [
    | inl v ↦ delete-Apart H laws p s m (valid-Clear s m e v)
    | inr v ↦ rw (v, handle_delete) (refl, refl)
  ]

  confined_undo :
      (s : StorageServerState Disk Db) (m : Message) (now : ℕ)
      → s.data_dir ≡ dir
      → Apart H laws p s (handle_undo H s m now).0
  unfolding handle_undo
  confined_undo s m now e = elim (Bool-cases (validate_basic_request m)) [
    | inl v ↦ undo-Apart H laws p s m now (valid-Clear s m e v)
    | inr v ↦ rw (v, handle_undo) (refl, refl)
  ]

  confined :
      (r : Operation) (s s' : StorageServerState Disk Db) (a : Arrival) (responses : List Message)
      → s.data_dir ≡ dir
      → Validated r
      → perform strftime H r s a ≡ some (s', responses)
      → Apart H laws p s s'
  unfolding perform handle_read handle_info
  confined create s s' a rs e v h =
      of_pair strftime H laws p s s' rs _ h (confined_create s a.msg a.now e)
  confined read s s' a rs e v h = ground arith
  confined write s s' a rs e v h =
      let (resp, k) = of_option strftime H laws p s s' rs (handle_write H s a.msg a.now) h in
      confined_write s s' a.msg resp a.now e k
  confined delete s s' a rs e v h =
      of_pair strftime H laws p s s' rs _ h (confined_delete s a.msg e)
  confined stream s s' a rs e v h = ground arith
  confined info s s' a rs e v h = ground arith
  confined undo s s' a rs e v h =
      of_pair strftime H laws p s s' rs _ h (confined_undo s a.msg a.now e)
  confined replicate s s' a rs e v h = absurd v
  confined checkpoint_ops s s' a rs e v h = absurd v
  confined unknown s s' a rs e v h = ground arith

  -- No sequence of requests that the storage server answers, whatever names they have, changes what a path
  -- holds that is neither the path of a file nor that of an undo state for a name without ".." and without
  -- a slash, where none of them is a replication or a checkpoint request.
  pub serve_all-confined :
      (s t : StorageServerState Disk Db) (arrivals : List Arrival)
      → s.data_dir ≡ dir
      → All (λ a. Validated (operation_of a.msg.type)) arrivals
      → serve_all strftime H s arrivals ≡ some t
      → contents t.disk p ≡ contents s.disk p
  unfolding serve_all serve
  serve_all-confined s t [] e v h = ground (arith, some_inj h)
  serve_all-confined s t (a ∷ arrivals) e v h = elim (Option-cases (serve strftime H s a)) [
    | inl n ↦ cc (rw (n, serve_all) at h)
    | inr ((s', responses), n) ↦
        let step = confined (operation_of a.msg.type) s s' a responses e v.0 n in
        serve_all-confined s' t arrivals (step.0 ∙ e) v.1 (rw (n, serve_all) at h) ∙ step.1
  ]
