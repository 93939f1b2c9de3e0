-- ===== src/NameServer/Dispatch.antt =====
-- `handle_client` of src/nameserver/nm_main.c: which handler answers a message, and the server as a
-- sequence of such steps. The handlers hold the mutex, so the requests of all clients are one sequence.
use network_doc.Base.{
  ℕ, ◌||◌, Option, none, some, List, [], ◌∷◌, if◌then◌else◌, CString, codes, str_eq,
}
use network_doc.Message.{invalid_param, Message, error_response}
use network_doc.NameServer.State.{NameServerState}
use network_doc.NameServer.Database.{Database}
use network_doc.NameServer.Register.{handle_register_ss, handle_register_client, handle_list}
use network_doc.NameServer.Files.{handle_create, handle_createfolder, handle_read, handle_delete}
use network_doc.NameServer.Edits.{
  handle_write, handle_commit, handle_undo, handle_exec, handle_checkpoint,
}
use network_doc.NameServer.Access.{handle_addaccess, handle_remaccess, handle_request_access}
use network_doc.NameServer.Views.{handle_view}

-- The MSG_* names that the dispatch knows, by handler.
pub data Request : Type 0 where
  register_ss register_client create read write commit delete view list : Request
  addaccess remaccess undo exec createfolder checkpoint request_access unknown : Request

-- The ladder of strcmp on msg.type.
unfoldable pub request_of : CString → Request
request_of type =
    if str_eq type (codes "REGISTER_SS")
    then register_ss
    else if str_eq type (codes "REGISTER_CLIENT")
    then register_client
    else if str_eq type (codes "CREATE")
    then create
    else if str_eq type (codes "READ")
        || (str_eq type (codes "STREAM") || str_eq type (codes "INFO"))
    then read
    else if str_eq type (codes "WRITE_LOCK") || str_eq type (codes "WRITE")
    then write
    else if str_eq type (codes "ETIRW")
    then commit
    else if str_eq type (codes "DELETE")
    then delete
    else if str_eq type (codes "VIEW")
    then view
    else if str_eq type (codes "LIST")
    then list
    else if str_eq type (codes "ADDACCESS")
    then addaccess
    else if str_eq type (codes "REMACCESS")
    then remaccess
    else if str_eq type (codes "UNDO")
    then undo
    else if str_eq type (codes "EXEC")
    then exec
    else if str_eq type (codes "CREATEFOLDER")
    then createfolder
    else if str_eq type (codes "CHECKPOINT")
    then checkpoint
    else if str_eq type (codes "REQUESTACCESS")
    then request_access
    else unknown

-- A message as it arrives: the socket of the connection, and the time.
pub record Event : Type 0 where
  pub sock : ℕ
  pub now : ℕ
  pub msg : Message

module _ (strftime : ℕ → CString) (D : Database) where
  open D use {Db}

  -- The body of the loop of `handle_client`.
  unfoldable pub dispatch :
      Request → NameServerState Db → Event → Option (NameServerState Db × Message)
  dispatch register_ss s e = handle_register_ss s e.msg e.now
  dispatch register_client s e = some (handle_register_client s e.msg e.now)
  dispatch create s e = some (handle_create D s e.msg e.now)
  dispatch read s e = some (handle_read D s e.msg e.now)
  dispatch write s e = some (handle_write D s e.sock e.msg e.now)
  dispatch commit s e = handle_commit D s e.sock e.msg e.now
  dispatch delete s e = some (handle_delete D s e.msg)
  dispatch view s e = some (handle_view strftime D s e.msg)
  dispatch list s e = some (handle_list s)
  dispatch addaccess s e = handle_addaccess D s e.msg
  dispatch remaccess s e = some (handle_remaccess D s e.msg)
  dispatch undo s e = some (handle_undo D s e.msg)
  dispatch exec s e = some (handle_exec D s e.msg)
  dispatch createfolder s e = some (handle_createfolder D s e.msg e.now)
  dispatch checkpoint s e = handle_checkpoint D s e.msg
  dispatch request_access s e = handle_request_access D s e.msg e.now
  dispatch unknown s e = some (s, error_response invalid_param "Unknown command")

  unfoldable pub handle_message : NameServerState Db → Event → Option (NameServerState Db × Message)
  handle_message s e = dispatch (request_of e.msg.type) s e

  -- One request after another; `none` once one of them has undefined behaviour.
  unfoldable pub run : NameServerState Db → List Event → Option (NameServerState Db)
  run s [] = some s
  run s (e ∷ events) = elim (handle_message s e) [ none ↦ none | some (s', resp) ↦ run s' events ]
