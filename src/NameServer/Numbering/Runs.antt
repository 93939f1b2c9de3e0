-- ===== src/NameServer/Numbering/Runs.antt =====
-- The numbers of the storage servers under every sequence of requests.
use network_doc.Base.{
  ℕ, suc, ◌+◌, ◌≡◌, refl, ap, ◌∙◌, true, Option, none, some, List, [], ◌∷◌, arith, some_inj,
  get_elem?, CString, pos,
}
use mathlib.Core.Path.{subst}
use network_doc.Message.{Message}
use network_doc.NameServer.State.{NameServerState, StorageServerInfo}
use network_doc.NameServer.Database.{Database}
use network_doc.NameServer.Servers.{get_ss_by_id}
use network_doc.NameServer.Register.{handle_register_client, handle_list}
use network_doc.NameServer.Views.{handle_view}
use network_doc.NameServer.Dispatch.{
  Request, register_ss, register_client, create, read, write, commit, delete, view, list, addaccess,
  remaccess, undo, exec, createfolder, checkpoint, request_access, unknown, Event, request_of,
  dispatch, handle_message, run,
}
use network_doc.NameServer.Exclusion.{run-cases}
use network_doc.NameServer.Start.{initial_state}
use network_doc.NameServer.Numbering.{
  ids, IsNumbered, Numbering, kept, step-IsNumbered, get_ss_by_id-at,
}
use network_doc.NameServer.Numbering.Requests.{
  KeepsServers, KeepsIds, ids-create, ids-createfolder, ids-delete, register-Numbering,
  servers-read, servers-write, servers-commit, servers-addaccess, servers-remaccess, servers-undo,
  servers-exec, servers-checkpoint, servers-request_access,
}

module _ (strftime : ℕ → CString) (D : Database) where
  open D use {Db}

  of_pair :
      (s t : NameServerState Db) (resp : Message) (p : NameServerState Db × Message)
      → some p ≡ some (t, resp)
      → KeepsIds D s p.0
      → Numbering s t
  of_pair s t resp p h k =
      subst (λ (q : NameServerState Db × Message). Numbering s q.0) (some_inj h) (kept k.0 k.1)

  of_kept :
      (s t : NameServerState Db) (resp : Message) (o : Option (NameServerState Db × Message))
      → o ≡ some (t, resp)
      → KeepsServers s o
      → Numbering s t
  of_kept s t resp none h k = cc h
  of_kept s t resp (some p) h k = of_pair s t resp p h (ap ids k.0, k.1)

  dispatch-Numbering :
      (r : Request) (s t : NameServerState Db) (e : Event) (resp : Message)
      → dispatch strftime D r s e ≡ some (t, resp)
      → Numbering s t
  unfolding dispatch handle_register_client handle_view handle_list
  dispatch-Numbering register_ss s t e resp h = register-Numbering D s t e.msg resp e.now h
  dispatch-Numbering register_client s t e resp h = kept (ground arith) (ground arith)
  dispatch-Numbering create s t e resp h = of_pair s t resp _ h (ids-create D s e.msg e.now)
  dispatch-Numbering read s t e resp h = of_kept s t resp _ h (servers-read D s e.msg e.now)
  dispatch-Numbering write s t e resp h =
      of_kept s t resp _ h (servers-write D s e.sock e.msg e.now)
  dispatch-Numbering commit s t e resp h =
      of_kept s t resp _ h (servers-commit D s e.sock e.msg e.now)
  dispatch-Numbering delete s t e resp h = of_pair s t resp _ h (ids-delete D s e.msg)
  dispatch-Numbering view s t e resp h = kept (ground arith) (ground arith)
  dispatch-Numbering list s t e resp h = kept (ground arith) (ground arith)
  dispatch-Numbering addaccess s t e resp h = of_kept s t resp _ h (servers-addaccess D s e.msg)
  dispatch-Numbering remaccess s t e resp h = of_kept s t resp _ h (servers-remaccess D s e.msg)
  dispatch-Numbering undo s t e resp h = of_kept s t resp _ h (servers-undo D s e.msg)
  dispatch-Numbering exec s t e resp h = of_kept s t resp _ h (servers-exec D s e.msg)
  dispatch-Numbering createfolder s t e resp h =
      of_pair s t resp _ h (ids-createfolder D s e.msg e.now)
  dispatch-Numbering checkpoint s t e resp h = of_kept s t resp _ h (servers-checkpoint D s e.msg)
  dispatch-Numbering request_access s t e resp h =
      of_kept s t resp _ h (servers-request_access D s e.msg e.now)
  dispatch-Numbering unknown s t e resp h = kept (ground arith) (ground arith)

  run-kept :
      (s t : NameServerState Db) (events : List Event)
      → run strftime D s events ≡ some t
      → IsNumbered s
      → IsNumbered t
  unfolding run handle_message
  run-kept s t [] h k = subst (λ (x : NameServerState Db). IsNumbered x) (some_inj h) k
  run-kept s t (e ∷ events) h k =
      let (s', resp, m, rest) = run-cases strftime D s t e events h in
      run-kept s' t events rest
        (step-IsNumbered (dispatch-Numbering (request_of e.msg.type) s s' e resp m) k)

  initial_state-IsNumbered :
      (db : Db) (rows : Option (List CString)) → IsNumbered (initial_state db rows)
  unfolding initial_state
  initial_state-IsNumbered db rows = record { numbered = tt; next = refl; few = omega arith }

  -- After any sequence of requests that the name server answers from its start on, whatever the database
  -- then holds, the storage server at index i has the number i + 1, there are at most as many as the array
  -- holds, and the next number is one more than there are servers; so the search for the number i + 1 finds
  -- the server at index i where that is alive.
  pub run-IsNumbered :
      (db : Db) (rows : Option (List CString)) (t : NameServerState Db) (events : List Event)
      → run strftime D (initial_state db rows) events ≡ some t
      → IsNumbered t
        × ((i : ℕ) (x : StorageServerInfo)
            → get_elem? t.storage_servers i ≡ some x
            → x.is_alive ≡ true
            → get_ss_by_id t.storage_servers (pos (suc i)) ≡ some x)
  run-IsNumbered db rows t events h =
      let n = run-kept (initial_state db rows) t events h (initial_state-IsNumbered db rows) in
      (
        n,
        λ i x there alive.
            let z : pos (suc i) ≡ pos (1 + i) = ap pos (omega arith) in
            ap (get_ss_by_id t.storage_servers) z
            ∙ get_ss_by_id-at 1 i t.storage_servers x n.numbered there alive,
      )
