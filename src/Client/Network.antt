-- ===== src/Client/Network.antt =====
-- What the client stands on, and its two kinds of exchange: with the name server, and
-- `contact_storage_server` of src/client/client_main.c.
use network_doc.Base.{
  Bool, true, false, Option, none, some, List, [], ◌∷◌, ◌++◌, ◌-◌, ◌==◌, if◌then◌else◌, String,
  CString, codes, ℤ, pos, eq_ℤ, ltb_ℤ,
}
use network_doc.Message.{max_filename, max_username, Message, error_number, init_message, strncpy}
use network_doc.Client.Address.{Address, parse_ss_info}

-- Sockets and popen, on a state of the world; the helpers of src/common/utils.c that carry a message
-- over a socket are `send_message` and `receive_message`.
pub record Network : Type 1 where
  pub World : Type 0
  pub Socket : Type 0
  -- connect_to_server(ip, port); `none` where it is negative.
  pub connect : World → CString → ℤ → World × Option Socket
  -- send_message(sock, msg) >= 0
  pub send : World → Socket → Message → World × Bool
  -- receive_message(sock, msg); `none` where it is negative.
  pub receive : World → Socket → World × Option Message
  pub close : World → Socket → World
  -- The output of popen(command, "r"); `none` where popen fails.
  pub popen : World → CString → World × Option CString

-- `ClientState`, for a client that is connected.
pub record ClientState (Socket : Type 0) : Type 0 where
  pub nm_socket : Socket
  pub username : CString

-- A format of printf that ends in a line feed.
abbrev pub line : String → CString
line text = codes text ++ 10 ∷ []

-- "Error: %s\n"
abbrev pub error_line : CString → CString
error_line text = codes "Error: " ++ (text ++ 10 ∷ [])

-- resp.error_code == ERR_SUCCESS
abbrev pub succeeded : Message → Bool
succeeded resp = error_number resp.error_code == 0

-- A message of the type for the file, from a user.
abbrev pub request : CString → String → CString → Message
request username type filename = record init_message {
  type = codes type;
  username = strncpy (max_username - 1) username;
  filename = strncpy (max_filename - 1) filename;
}

-- What a command ends in: behaviour that C leaves undefined, a loop that used up its fuel, or a result.
pub data Run (A : Type 0) : Type 0 where
  undefined unfinished : Run A
  done : A → Run A

-- What an array holds that was zeroed before the address was stored.
abbrev pub or_empty : Option CString → CString
or_empty none = []
or_empty (some ip) = ip

-- What becomes of a message that is sent for an answer.
pub data Reply : Type 0 where
  not_sent not_received : Reply
  response : Message → Reply

module _ (N : Network) where
  open N use {World, Socket, connect, send, receive, close, popen}

  -- What a command leaves: the world, and what it printed.
  abbrev pub Outcome : Type 0
  Outcome = World × List CString

  unfoldable pub exchange : World → Socket → Message → World × Reply
  exchange w sock msg =
      let (w1, sent) = send w sock msg in
      let (w2, received) = receive w1 sock in
      elim sent [
        | false ↦ (w1, not_sent)
        | true ↦ elim received [ none ↦ (w2, not_received) | some resp ↦ (w2, response resp) ]
      ]

  -- The primary, and where it does not answer the replica, if there is one.
  unfoldable pub connect_storage : World → Address → Address → World × Option Socket
  connect_storage w primary replica =
      let (w1, sock) = connect w (or_empty primary.ip) primary.port in
      elim sock [
        | some s ↦ (w1, some s)
        | none ↦
            if ltb_ℤ (pos 0) replica.port
            then connect w1 (or_empty replica.ip) replica.port
            else (w1, none)
      ]

  -- The connection is closed, whatever the answer.
  abbrev pub received : Socket → World × Reply → World × Option Message
  received sock (w, not_sent) = (close w sock, none)
  received sock (w, not_received) = (close w sock, none)
  received sock (w, response resp) = (close w sock, some resp)

  abbrev pub over : Message → World × Option Socket → World × Option Message
  over msg (w, none) = (w, none)
  over msg (w, some sock) = received sock (exchange w sock msg)

  -- `none` is the result -1.
  unfoldable pub contact_storage_server : World → CString → Message → World × Option Message
  contact_storage_server w ss_info msg =
      let (primary, replica) = parse_ss_info ss_info in
      if eq_ℤ primary.port (pos 0) then (w, none) else over msg (connect_storage w primary replica)

  -- A request to the name server: both failures and the refusal are printed, and a success goes on.
  abbrev pub answered : (World → Message → Outcome) → World × Reply → Outcome
  answered next (w, not_sent) = (w, line "Error: Failed to send request" ∷ [])
  answered next (w, not_received) = (w, line "Error: Failed to receive response" ∷ [])
  answered next (w, response resp) =
      if succeeded resp then next w resp else (w, error_line resp.error_msg ∷ [])

  unfoldable pub ask : ClientState Socket → World → Message → (World → Message → Outcome) → Outcome
  ask c w msg next = answered next (exchange w c.nm_socket msg)

  -- The storage server's answer, where every failure has its own text.
  abbrev pub delivered : (World → Message → Outcome) → World × Option Message → Outcome
  delivered next (w, none) = (w, line "Error: Failed to contact storage server" ∷ [])
  delivered next (w, some resp) =
      if succeeded resp then next w resp else (w, error_line resp.error_msg ∷ [])

  unfoldable pub deliver : World → CString → Message → (World → Message → Outcome) → Outcome
  deliver w ss_info msg next = delivered next (contact_storage_server w ss_info msg)

  -- The same, where they have one text.
  abbrev pub delivered_or : CString → (World → Message → Outcome) → World × Option Message → Outcome
  delivered_or failure next (w, none) = (w, failure ∷ [])
  delivered_or failure next (w, some resp) =
      if succeeded resp then next w resp else (w, failure ∷ [])

  unfoldable pub deliver_or :
      CString → World → CString → Message → (World → Message → Outcome) → Outcome
  deliver_or failure w ss_info msg next =
      delivered_or failure next (contact_storage_server w ss_info msg)
