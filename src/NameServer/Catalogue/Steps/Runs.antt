-- ===== src/NameServer/Catalogue/Steps/Runs.antt =====
-- The agreement of trie and table under every sequence of requests.
use network_doc.Base.{
  ℕ, ◌≡◌, ◌∙◌, some, is_some, List, [], ◌∷◌, arith, some_inj, All, CString, IsBytes,
}
use network_doc.Trie.{trie_search}
use network_doc.NameServer.Start.{initial_state}
use network_doc.Message.{Message}
use network_doc.NameServer.State.{NameServerState}
use network_doc.NameServer.Database.{Database}
use mathlib.Core.Path.{subst}
use network_doc.NameServer.Database.{DatabaseLaws}
use network_doc.NameServer.Register.{handle_register_client, handle_list}
use network_doc.NameServer.Edits.{handle_undo, handle_exec}
use network_doc.NameServer.Views.{handle_view}
use network_doc.NameServer.Dispatch.{
  Request, register_ss, register_client, create, read, write, commit, delete, view, list, addaccess,
  remaccess, undo, exec, createfolder, checkpoint, request_access, unknown, Event, request_of,
  dispatch, handle_message, run,
}
use network_doc.NameServer.Exclusion.{run-cases}
use network_doc.NameServer.Catalogue.{
  listed, load_files_from_db, load_files_lem, Agrees, DeletesSucceed, CatalogueStep-Agrees,
}
use network_doc.NameServer.Catalogue.Steps.{
  catalogue-register_ss, catalogue-checkpoint, Steps, idle, create-Steps, createfolder-Steps,
  read-Steps, delete-Steps, write-Steps, commit-Steps,
}
use network_doc.NameServer.Catalogue.Steps.Grants.{
  remaccess-Steps, addaccess-Steps, request_access-Steps,
}

module _ (strftime : ℕ → CString) (D : Database) (laws : DatabaseLaws D)
    (ok : DeletesSucceed D laws) where
  open D use {Db, file}

  -- A step of a handler that returns the pair.
  of_pair :
      (s s' : NameServerState Db) (resp : Message) (p : NameServerState Db × Message)
      → some p ≡ some (s', resp)
      → Steps D laws s p.0
      → Steps D laws s s'
  of_pair s s' resp p h st =
      subst (λ (q : NameServerState Db × Message). Steps D laws s q.0) (some_inj h) st

  dispatch-Steps :
      (r : Request) (s s' : NameServerState Db) (e : Event) (resp : Message)
      → IsBytes e.msg.filename
      → dispatch strftime D r s e ≡ some (s', resp)
      → Steps D laws s s'
  unfolding dispatch handle_register_client handle_view handle_list handle_undo handle_exec
  dispatch-Steps register_ss s s' e resp b h =
      idle D laws (ground (arith, catalogue-register_ss s e.msg e.now))
        (ground (arith, catalogue-register_ss s e.msg e.now))
  dispatch-Steps register_client s s' e resp b h = idle D laws (ground arith) (ground arith)
  dispatch-Steps create s s' e resp b h =
      of_pair s s' resp _ h (create-Steps D laws s e.msg e.now b)
  dispatch-Steps read s s' e resp b h = of_pair s s' resp _ h (read-Steps D laws s e.msg e.now)
  dispatch-Steps write s s' e resp b h =
      of_pair s s' resp _ h (write-Steps D laws s e.sock e.msg e.now)
  dispatch-Steps commit s s' e resp b h = commit-Steps D laws s s' resp e.sock e.msg e.now h
  dispatch-Steps delete s s' e resp b h = of_pair s s' resp _ h (delete-Steps D laws ok s e.msg b)
  dispatch-Steps view s s' e resp b h = idle D laws (ground arith) (ground arith)
  dispatch-Steps list s s' e resp b h = idle D laws (ground arith) (ground arith)
  dispatch-Steps addaccess s s' e resp b h = addaccess-Steps D laws s s' resp e.msg h
  dispatch-Steps remaccess s s' e resp b h = of_pair s s' resp _ h (remaccess-Steps D laws s e.msg)
  dispatch-Steps undo s s' e resp b h = idle D laws (ground arith) (ground arith)
  dispatch-Steps exec s s' e resp b h = idle D laws (ground arith) (ground arith)
  dispatch-Steps createfolder s s' e resp b h =
      of_pair s s' resp _ h (createfolder-Steps D laws s e.msg e.now b)
  dispatch-Steps checkpoint s s' e resp b h =
      idle D laws (ground (arith, catalogue-checkpoint D s e.msg))
        (ground (arith, catalogue-checkpoint D s e.msg))
  dispatch-Steps request_access s s' e resp b h =
      request_access-Steps D laws s s' resp e.msg e.now h
  dispatch-Steps unknown s s' e resp b h = idle D laws (ground arith) (ground arith)

  -- If every `DELETE FROM files` succeeds, then after any sequence of messages that the server answers,
  -- with file names of bytes, a search of the trie finds exactly the names that have a row in the table
  -- `files`, if it did so before.
  pub run-Agrees :
      (s t : NameServerState Db) (events : List Event)
      → All (λ e. IsBytes e.msg.filename) events
      → run strftime D s events ≡ some t
      → Agrees D laws s
      → Agrees D laws t
  unfolding run handle_message
  run-Agrees s t [] b h k = subst (λ (x : NameServerState Db). Agrees D laws x) (some_inj h) k
  run-Agrees s t (e ∷ events) b h k =
      let (s', resp, m, rest) = run-cases strftime D s t e events h in
      run-Agrees s' t events b.1 rest
        (CatalogueStep-Agrees D laws (dispatch-Steps (request_of e.msg.type) s s' e resp b.0 m) k)

  -- If every `DELETE FROM files` succeeds, then from the start of the name server on, where the rows loaded
  -- are those of the table `files`, with names of bytes, a search of the trie finds exactly the names that
  -- have a row in the table, after any sequence of messages that the server answers, with file names of
  -- bytes.
  pub run-indexed :
      (db : Db) (names : List CString) (t : NameServerState Db) (events : List Event)
      → All IsBytes names
      → ((k : CString) → IsBytes k → listed names k ≡ is_some (file db k))
      → All (λ e. IsBytes e.msg.filename) events
      → run strftime D (initial_state db (some names)) events ≡ some t
      → (k : CString) → IsBytes k
      → trie_search t.file_trie k ≡ is_some (file t.db k)
  unfolding initial_state load_files_from_db
  run-indexed db names t events bytes rows b h =
      run-Agrees (initial_state db (some names)) t events b h
        (λ k c. load_files_lem names k bytes c ∙ rows k c)
