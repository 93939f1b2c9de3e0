-- ===== src/Message.antt =====
-- The protocol message of include/common.h and its helpers in src/common/utils.c.
-- A field that is a char array of n bytes holds a C string of at most n - 1 bytes; `data`, which
-- is a reserved word here, is called `body`.
use network_doc.Base.{
  if◌then◌else◌, ltb, ◌++◌, ◌-◌, ◌+◌, ℕ, ◌<◌, [], CString, codes, String, length, take,
}

abbrev pub buffer_size : ℕ
buffer_size = 65536

abbrev pub max_filename : ℕ
max_filename = 256

abbrev pub max_username : ℕ
max_username = 64

-- The ERR_* codes.
pub data ErrorCode : Type 0 where
  success file_not_found file_exists permission_denied locked invalid_param server_error : ErrorCode
  not_owner user_not_found ss_not_found connection_failed folder_not_found : ErrorCode
  checkpoint_not_found : ErrorCode

abbrev pub error_number : ErrorCode → ℕ
error_number success = 0
error_number file_not_found = 1
error_number file_exists = 2
error_number permission_denied = 3
error_number locked = 4
error_number invalid_param = 5
error_number server_error = 6
error_number not_owner = 7
error_number user_not_found = 8
error_number ss_not_found = 9
error_number connection_failed = 10
error_number folder_not_found = 11
error_number checkpoint_not_found = 12

pub record Message : Type 0 where
  pub type : CString
  pub username : CString
  pub filename : CString
  pub body : CString
  pub error_code : ErrorCode
  pub error_msg : CString

-- The terminators fit: every field is shorter than its array.
pub record IsMessage (m : Message) : Type 0 where
  pub type_fits : length m.type < 32
  pub username_fits : length m.username < max_username
  pub filename_fits : length m.filename < max_filename
  pub body_fits : length m.body < buffer_size
  pub error_msg_fits : length m.error_msg < 256

-- memset(msg, 0, sizeof(Message)); 0 is ERR_SUCCESS.
abbrev pub init_message : Message
init_message = record {
  type = [];
  username = [];
  filename = [];
  body = [];
  error_code = success;
  error_msg = [];
}

-- strncpy into a buffer of n + 1 bytes whose last byte is NUL, and snprintf into such a buffer.
abbrev pub strncpy : ℕ → CString → CString
strncpy = take

unfoldable pub set_message_error : Message → ErrorCode → CString → Message
set_message_error msg code text = record msg { error_code = code; error_msg = strncpy 255 text }

-- A response that carries an error and nothing else.
abbrev pub error_response : ErrorCode → String → Message
error_response code text = set_message_error init_message code (codes text)

-- A response that carries data.
abbrev pub data_response : CString → Message
data_response text = record init_message { body = strncpy 65535 text }

-- strcat, unless result and line together fill the buffer
abbrev pub append_line : CString → CString → CString
append_line result line =
    if ltb (length result + length line) (buffer_size - 1) then result ++ line else result
