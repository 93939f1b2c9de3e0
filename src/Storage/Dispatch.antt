-- ===== src/Storage/Dispatch.antt =====
-- `handle_client` of src/storageserver/ss_main.c: which handler answers a message, and the server as a
-- sequence of such steps. The handlers hold the mutex, so the requests of all clients are one sequence.
use network_doc.Base.{
  ℕ, Bool, ◌||◌, Option, none, some, List, [], ◌∷◌, if◌then◌else◌, CString, codes, str_eq,
}
use network_doc.Message.{invalid_param, Message, error_response}
use network_doc.Storage.Host.{Host}
use network_doc.Storage.Content.{StorageServerState}
use network_doc.Storage.Handlers.{
  handle_create, handle_read, handle_write, handle_delete, handle_info, handle_undo,
  handle_replicate,
}
use network_doc.Storage.Checkpoints.{handle_checkpoint_ops}
use network_doc.Storage.Streams.{handle_stream}

-- The MSG_* names that the storage server knows, by handler.
pub data Operation : Type 0 where
  create read write delete stream info undo replicate checkpoint_ops unknown : Operation

-- The ladder of strcmp on msg.type.
unfoldable pub operation_of : CString → Operation
operation_of type =
    if str_eq type (codes "CREATE")
    then create
    else if str_eq type (codes "READ")
    then read
    else if str_eq type (codes "WRITE") || str_eq type (codes "WRITE_UPDATE")
    then write
    else if str_eq type (codes "DELETE")
    then delete
    else if str_eq type (codes "STREAM")
    then stream
    else if str_eq type (codes "INFO")
    then info
    else if str_eq type (codes "UNDO")
    then undo
    else if str_eq type (codes "REPLICATE")
    then replicate
    else if str_eq type (codes "CHECKPOINT")
        || (str_eq type (codes "LISTCHECKPOINTS") || str_eq type (codes "REVERT"))
    then checkpoint_ops
    else unknown

-- A message as it arrives at a time, with what becomes of the words of a stream.
pub record Arrival : Type 0 where
  pub now : ℕ
  pub msg : Message
  pub delivered : ℕ → Bool

module _ {State : Type 0} where
  abbrev pub one_response : State × Message → State × List Message
  one_response (s, resp) = (s, resp ∷ [])

  abbrev pub some_response : Option (State × Message) → Option (State × List Message)
  some_response none = none
  some_response (some p) = some (one_response p)

module _ (strftime : ℕ → CString) (H : Host) where
  open H use {Disk, Db}

  -- The body of the loop of `handle_client`, with the messages sent.
  unfoldable pub perform :
      Operation
      → StorageServerState Disk Db
      → Arrival
      → Option (StorageServerState Disk Db × List Message)
  perform create s a = some (one_response (handle_create H s a.msg a.now))
  perform read s a = some (one_response (handle_read H s a.msg))
  perform write s a = some_response (handle_write H s a.msg a.now)
  perform delete s a = some (one_response (handle_delete H s a.msg))
  perform stream s a = some (s, handle_stream H a.delivered s a.msg)
  perform info s a = some (one_response (handle_info H strftime s a.msg))
  perform undo s a = some (one_response (handle_undo H s a.msg a.now))
  perform replicate s a = some (one_response (handle_replicate H s a.msg a.now))
  perform checkpoint_ops s a = some_response (handle_checkpoint_ops H strftime s a.msg a.now)
  perform unknown s a = some (s, error_response invalid_param "Unknown command" ∷ [])

  unfoldable pub serve :
      StorageServerState Disk Db → Arrival → Option (StorageServerState Disk Db × List Message)
  serve s a = perform (operation_of a.msg.type) s a

  -- One request after another; `none` once one of them has undefined behaviour.
  unfoldable pub serve_all :
      StorageServerState Disk Db → List Arrival → Option (StorageServerState Disk Db)
  serve_all s [] = some s
  serve_all s (a ∷ arrivals) = elim (serve s a) [
    | none ↦ none
    | some (s', responses) ↦ serve_all s' arrivals
  ]
