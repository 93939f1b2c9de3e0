-- ===== src/NameServer/Ownership/Runs.antt =====
-- The rights on a file under every sequence of requests by others than its owner.
use network_doc.Base.{
  ℕ, ◌≡◌, sym, ◌∙◌, ◌≢◌, inl, inr, false, some, List, [], ◌∷◌, arith, some_inj, All, CString, ℤ,
}
use mathlib.Core.Path.{subst}
use network_doc.Message.{Message, success}
use network_doc.NameServer.State.{NameServerState}
use network_doc.NameServer.Database.{Database, DatabaseLaws}
use network_doc.NameServer.Permission.{grants, access_read}
use network_doc.NameServer.Register.{handle_register_client, handle_list}
use network_doc.NameServer.Files.{handle_read}
use network_doc.NameServer.Edits.{lock_sentence, handle_write, handle_undo, handle_exec}
use network_doc.NameServer.Access.Grants.{read-MayAccess}
use network_doc.NameServer.Views.{handle_view}
use network_doc.NameServer.Dispatch.{
  Request, register_ss, register_client, create, read, write, commit, delete, view, list, addaccess,
  remaccess, undo, exec, createfolder, checkpoint, request_access, unknown, Event, request_of,
  dispatch, handle_message, run,
}
use network_doc.NameServer.Exclusion.{run-cases}
use network_doc.NameServer.Ownership.{Owned, and_then}
use network_doc.NameServer.Ownership.Requests.{
  Safe, Holds, kept, database-register_ss, database-checkpoint, create-Guarded,
  createfolder-Guarded, read-Guarded, delete-Guarded,
}
use network_doc.NameServer.Ownership.Grants.{
  addaccess-Guarded, remaccess-Guarded, commit-Guarded, request_access-Guarded,
}

module _ (strftime : ℕ → CString) (D : Database) (laws : DatabaseLaws D) (k o : CString) where
  open D use {Db, file, permissions}

  -- A handler that returns the pair.
  of_pair :
      (s s' : NameServerState Db) (resp : Message) (p : NameServerState Db × Message)
      → some p ≡ some (s', resp)
      → Safe D laws k o s p.0
      → Safe D laws k o s s'
  of_pair s s' resp p h st =
      subst (λ (q : NameServerState Db × Message). Safe D laws k o s q.0) (some_inj h) st

  dispatch-Guarded :
      (r : Request) (s s' : NameServerState Db) (e : Event) (resp : Message)
      → e.msg.username ≢ o
      → Holds D laws k o s
      → dispatch strftime D r s e ≡ some (s', resp)
      → Safe D laws k o s s'
  unfolding dispatch handle_register_client handle_view handle_list handle_undo handle_exec
      handle_write lock_sentence
  dispatch-Guarded register_ss s s' e resp ne own h =
      kept D laws k o own (ground (arith, database-register_ss s e.msg e.now))
  dispatch-Guarded register_client s s' e resp ne own h = kept D laws k o own (ground arith)
  dispatch-Guarded create s s' e resp ne own h =
      of_pair s s' resp _ h (create-Guarded D laws k o s e.msg e.now own)
  dispatch-Guarded read s s' e resp ne own h =
      of_pair s s' resp _ h (read-Guarded D laws k o s e.msg e.now own)
  dispatch-Guarded write s s' e resp ne own h = kept D laws k o own (ground arith)
  dispatch-Guarded commit s s' e resp ne own h =
      commit-Guarded D laws k o s s' resp e.sock e.msg e.now own h
  dispatch-Guarded delete s s' e resp ne own h =
      of_pair s s' resp _ h (delete-Guarded D laws k o s e.msg ne own)
  dispatch-Guarded view s s' e resp ne own h = kept D laws k o own (ground arith)
  dispatch-Guarded list s s' e resp ne own h = kept D laws k o own (ground arith)
  dispatch-Guarded addaccess s s' e resp ne own h =
      addaccess-Guarded D laws k o s s' resp e.msg ne own h
  dispatch-Guarded remaccess s s' e resp ne own h =
      of_pair s s' resp _ h (remaccess-Guarded D laws k o s e.msg ne own)
  dispatch-Guarded undo s s' e resp ne own h = kept D laws k o own (ground arith)
  dispatch-Guarded exec s s' e resp ne own h = kept D laws k o own (ground arith)
  dispatch-Guarded createfolder s s' e resp ne own h =
      of_pair s s' resp _ h (createfolder-Guarded D laws k o s e.msg e.now own)
  dispatch-Guarded checkpoint s s' e resp ne own h =
      kept D laws k o own (ground (arith, database-checkpoint D s e.msg))
  dispatch-Guarded request_access s s' e resp ne own h =
      request_access-Guarded D laws k o s s' resp e.msg e.now own h
  dispatch-Guarded unknown s s' e resp ne own h = kept D laws k o own (ground arith)

  -- Whatever sequence of messages other users than the owner of a file send and the server answers, the
  -- owner stays its owner, and every entry of its access control list stays what it was.
  pub run-Guarded :
      (s t : NameServerState Db) (events : List Event)
      → All (λ e. e.msg.username ≢ o) events
      → Owned D laws k o s.db
      → run strftime D s events ≡ some t
      → Owned D laws k o t.db × ((u : CString) → permissions t.db k u ≡ permissions s.db k u)
  unfolding run handle_message
  run-Guarded s t [] ne own h = kept D laws k o own (sym (ground (arith, some_inj h)))
  run-Guarded s t (e ∷ events) ne own h =
      let (s', resp, m, rest) = run-cases strftime D s t e events h in
      let first = dispatch-Guarded (request_of e.msg.type) s s' e resp ne.0 own m in
      and_then D laws k o first (run-Guarded s' t events ne.1 first.0 rest)

  -- A user who is not the owner of a file, and whom its access control list does not let read it, is not
  -- let read it after any sequence of messages that other users than the owner send and the server
  -- answers.
  pub run-read_refused :
      (s t : NameServerState Db) (events : List Event) (m : Message) (now : ℕ)
      → All (λ e. e.msg.username ≢ o) events
      → Owned D laws k o s.db
      → run strftime D s events ≡ some t
      → m.filename ≡ k
      → m.username ≢ o
      → ((perms : ℤ)
          → permissions s.db k m.username ≡ some perms
          → grants perms access_read ≡ false)
      → (handle_read D t m now).1.error_code ≢ success
  run-read_refused s t events m now ne own h same other none_granted ok =
      let ((q, e, owner), list_kept) = run-Guarded s t events ne own h in
      elim (read-MayAccess D t m now ok).0 [
        | inl (r, e', mine) ↦ other (cc (mine, e', e, owner, same))
        | inr (perms, e', yes_granted) ↦
            cc (none_granted perms (sym (list_kept m.username) ∙ rw (← same) e'), yes_granted)
      ]
