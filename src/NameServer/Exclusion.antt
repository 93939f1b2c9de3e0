-- ===== src/NameServer/Exclusion.antt =====
-- Mutual exclusion: the sentence locks under every sequence of requests.
use network_doc.Base.{
  ℕ, ◌≡◌, refl, ◌≢◌, inl, inr, not, Option, none, some, List, [], ◌∷◌, arith, ltb, ltb→lt,
  Bool-cases, Option-cases, some_inj, length, take_all, All, CString, ℤ,
}
use network_doc.Message.{Message, IsMessage}
use network_doc.Trie.{trie_search}
use network_doc.Format.{scan_int}
use network_doc.NameServer.State.{NameServerState, max_locks}
use network_doc.NameServer.Database.{Database}
use network_doc.NameServer.Permission.{check_permission, access_write}
use network_doc.NameServer.Locks.{held, check_lock}
use mathlib.Core.Path.{subst}
use network_doc.NameServer.Locks.Table.{
  IsTable, LockStep, same, acquired, released, LockStep-IsTable, LockStep-held, LockCheck-cases,
}
use network_doc.NameServer.Register.{handle_register_ss, handle_register_client, handle_list}
use network_doc.NameServer.Files.{
  create_on, handle_create, create_folder_on, handle_createfolder, handle_read, remove_file,
  handle_delete,
}
use network_doc.NameServer.Edits.{
  new_lock, lock_sentence, handle_write, handle_commit, handle_undo, handle_exec, handle_checkpoint,
}
use network_doc.NameServer.Access.{
  grant_access, add_access, handle_addaccess, revoke_from, handle_remaccess, submit_request,
  view_requests, request_command, handle_request_access,
}
use network_doc.NameServer.Views.{handle_view}
use network_doc.NameServer.Dispatch.{
  Request, register_ss, register_client, create, read, write, commit, delete, view, list, addaccess,
  remaccess, undo, exec, createfolder, checkpoint, request_access, unknown, Event, request_of,
  dispatch, handle_message, run,
}

-- The requests that leave the lock table alone.
abbrev KeepsLocks :
    {Db : Type 0} → NameServerState Db → Option (NameServerState Db × Message) → Type 0
KeepsLocks s none = Unit
KeepsLocks s (some (s', resp)) = s'.locks ≡ s.locks

module _ (D : Database) where
  open D use {Db}

  locks-register_ss :
      (s : NameServerState Db) (m : Message) (now : ℕ) → KeepsLocks s (handle_register_ss s m now)
  unfolding handle_register_ss
  locks-register_ss s m now = ground arith

  locks-create :
      (s : NameServerState Db) (m : Message) (now : ℕ) → (handle_create D s m now).0.locks ≡ s.locks
  unfolding handle_create create_on
  locks-create s m now = ground arith

  locks-createfolder :
      (s : NameServerState Db) (m : Message) (now : ℕ)
      → (handle_createfolder D s m now).0.locks ≡ s.locks
  unfolding handle_createfolder create_folder_on
  locks-createfolder s m now = ground arith

  locks-read :
      (s : NameServerState Db) (m : Message) (now : ℕ) → (handle_read D s m now).0.locks ≡ s.locks
  unfolding handle_read
  locks-read s m now = ground arith

  locks-delete : (s : NameServerState Db) (m : Message) → (handle_delete D s m).0.locks ≡ s.locks
  unfolding handle_delete remove_file
  locks-delete s m = ground arith

  locks-addaccess : (s : NameServerState Db) (m : Message) → KeepsLocks s (handle_addaccess D s m)
  unfolding handle_addaccess add_access grant_access
  locks-addaccess s m = ground arith

  locks-remaccess :
      (s : NameServerState Db) (m : Message) → (handle_remaccess D s m).0.locks ≡ s.locks
  unfolding handle_remaccess revoke_from
  locks-remaccess s m = ground arith

  locks-undo : (s : NameServerState Db) (m : Message) → (handle_undo D s m).0.locks ≡ s.locks
  unfolding handle_undo
  locks-undo s m = ground arith

  locks-exec : (s : NameServerState Db) (m : Message) → (handle_exec D s m).0.locks ≡ s.locks
  unfolding handle_exec
  locks-exec s m = ground arith

  locks-checkpoint : (s : NameServerState Db) (m : Message) → KeepsLocks s (handle_checkpoint D s m)
  unfolding handle_checkpoint
  locks-checkpoint s m = ground arith

  locks-request_access :
      (s : NameServerState Db) (m : Message) (now : ℕ)
      → KeepsLocks s (handle_request_access D s m now)
  unfolding handle_request_access request_command submit_request view_requests
  locks-request_access s m now = ground arith

  -- Behind the permission check a write takes a new lock on a free sentence or none.
  lock_sentence-LockStep :
      (s : NameServerState Db) (m : Message) (number : ℤ) (sock now : ℕ)
      → IsMessage m
      → LockStep sock s.locks (lock_sentence D s m number sock now).0.locks
  unfolding lock_sentence
  lock_sentence-LockStep s m number sock now fits =
      elim (LockCheck-cases (check_lock m.filename number sock s.locks)) [
        | inl e ↦ elim (Bool-cases (ltb (length s.locks) max_locks)) [
          | inl room ↦
              acquired (new_lock m number sock now) refl
                (rw (take_all 255 m.filename (omega (arith, fits.filename_fits))) e)
                (ltb→lt _ _ room) (ground arith)
          | inr full ↦ same (ground arith)
        ]
        | inr (inl e) ↦ same (ground arith)
        | inr (inr (l, e)) ↦ same (ground arith)
      ]

  write-LockStep :
      (s : NameServerState Db) (sock : ℕ) (m : Message) (now : ℕ)
      → IsMessage m
      → LockStep sock s.locks (handle_write D s sock m now).0.locks
  unfolding handle_write
  write-LockStep s sock m now fits = elim (Option-cases (scan_int m.body)) [
    | inl e ↦ same (ground arith)
    | inr ((number, rest), e) ↦ elim (Bool-cases (not (trie_search s.file_trie m.filename))) [
      | inl missing ↦ same (ground arith)
      | inr found ↦
          elim (Bool-cases (not (check_permission D s.db m.username m.filename access_write))) [
            | inl refused ↦ same (ground arith)
            | inr allowed ↦
                rw (e, handle_write, found, allowed)
                  (lock_sentence-LockStep s m number sock now fits)
          ]
    ]
  ]

  commit-LockStep :
      (s s' : NameServerState Db) (resp : Message) (sock : ℕ) (m : Message) (now : ℕ)
      → handle_commit D s sock m now ≡ some (s', resp)
      → LockStep sock s.locks s'.locks
  unfolding handle_commit
  commit-LockStep s s' resp sock m now h = elim (Option-cases (scan_int m.body)) [
    | inl e ↦ cc (rw (e, handle_commit) at h)
    | inr ((number, rest), e) ↦ released m.filename number m.username (ground arith)
  ]

module _ (strftime : ℕ → CString) (D : Database) where
  open D use {Db}

  dispatch-LockStep :
      (r : Request) (s s' : NameServerState Db) (e : Event) (resp : Message)
      → IsMessage e.msg
      → dispatch strftime D r s e ≡ some (s', resp)
      → LockStep e.sock s.locks s'.locks
  unfolding dispatch handle_register_client handle_view handle_list
  dispatch-LockStep register_ss s s' e resp fits h =
      same (ground (arith, locks-register_ss D s e.msg e.now))
  dispatch-LockStep register_client s s' e resp fits h = same (ground arith)
  dispatch-LockStep create s s' e resp fits h = same (ground (arith, locks-create D s e.msg e.now))
  dispatch-LockStep read s s' e resp fits h = same (ground (arith, locks-read D s e.msg e.now))
  dispatch-LockStep write s s' e resp fits h =
      subst (λ (r : NameServerState Db × Message). LockStep e.sock s.locks r.0.locks) (some_inj h)
        (write-LockStep D s e.sock e.msg e.now fits)
  dispatch-LockStep commit s s' e resp fits h = commit-LockStep D s s' resp e.sock e.msg e.now h
  dispatch-LockStep delete s s' e resp fits h = same (ground (arith, locks-delete D s e.msg))
  dispatch-LockStep view s s' e resp fits h = same (ground arith)
  dispatch-LockStep list s s' e resp fits h = same (ground arith)
  dispatch-LockStep addaccess s s' e resp fits h = same (ground (arith, locks-addaccess D s e.msg))
  dispatch-LockStep remaccess s s' e resp fits h = same (ground (arith, locks-remaccess D s e.msg))
  dispatch-LockStep undo s s' e resp fits h = same (ground (arith, locks-undo D s e.msg))
  dispatch-LockStep exec s s' e resp fits h = same (ground (arith, locks-exec D s e.msg))
  dispatch-LockStep createfolder s s' e resp fits h =
      same (ground (arith, locks-createfolder D s e.msg e.now))
  dispatch-LockStep checkpoint s s' e resp fits h =
      same (ground (arith, locks-checkpoint D s e.msg))
  dispatch-LockStep request_access s s' e resp fits h =
      same (ground (arith, locks-request_access D s e.msg e.now))
  dispatch-LockStep unknown s s' e resp fits h = same (ground arith)

  -- If the server answers a well-formed message, the lock table has changed by one step of the sender's
  -- socket: not at all, by a new lock on a free sentence with room in the table, or by a release of that
  -- socket.
  pub handle_message-LockStep :
      (s s' : NameServerState Db) (e : Event) (resp : Message)
      → IsMessage e.msg
      → handle_message strftime D s e ≡ some (s', resp)
      → LockStep e.sock s.locks s'.locks
  unfolding handle_message
  handle_message-LockStep s s' e resp fits h =
      dispatch-LockStep (request_of e.msg.type) s s' e resp fits h

  -- A run is one message and the rest.
  pub run-cases :
      (s t : NameServerState Db) (e : Event) (es : List Event)
      → run strftime D s (e ∷ es) ≡ some t
      → (s' : NameServerState Db) × (resp : Message) × (handle_message strftime D s e
          ≡ some (s', resp))
        × (run strftime D s' es ≡ some t)
  unfolding run
  run-cases s t e es h = elim (Option-cases (handle_message strftime D s e)) [
    | inl n ↦ cc (rw (n, run) at h)
    | inr ((s', resp), m) ↦ (s', resp, m, rw (m, run) at h)
  ]

  -- After any sequence of well-formed messages that the server answers, no sentence has two locks and
  -- there are at most MAX_LOCKS of them, if it was so before.
  pub run-IsTable :
      (s t : NameServerState Db) (events : List Event)
      → All (λ e. IsMessage e.msg) events
      → run strftime D s events ≡ some t
      → IsTable s.locks
      → IsTable t.locks
  unfolding run
  run-IsTable s t [] fits h k = subst (λ (x : NameServerState Db). IsTable x.locks) (some_inj h) k
  run-IsTable s t (e ∷ events) fits h k =
      let (s', resp, m, rest) = run-cases s t e events h in
      run-IsTable s' t events fits.1 rest
        (LockStep-IsTable (handle_message-LockStep s s' e resp fits.0 m) k)

  -- A socket that holds the lock of a sentence still holds it after any sequence of well-formed
  -- messages from other sockets that the server answers.
  pub run-held :
      (s t : NameServerState Db) (events : List Event) (filename : CString) (number : ℤ) (sock : ℕ)
      → All (λ e. IsMessage e.msg × (e.sock ≢ sock)) events
      → run strftime D s events ≡ some t
      → check_lock filename number sock s.locks ≡ held
      → check_lock filename number sock t.locks ≡ held
  unfolding run
  run-held s t [] f n sock fits h k =
      subst (λ (x : NameServerState Db). check_lock f n sock x.locks ≡ held) (some_inj h) k
  run-held s t (e ∷ events) f n sock fits h k =
      let (s', resp, m, rest) = run-cases s t e events h in
      run-held s' t events f n sock fits.1 rest
        (LockStep-held f n sock (handle_message-LockStep s s' e resp fits.0.0 m) fits.0.1 k)
