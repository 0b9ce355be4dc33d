-- ===== src/Messages.antt =====
-- What travels over a WebSocket: Common/WebSocket/subprotocol.py, messages.py and Payloads. An event
-- id is a number, and so are tasks, which are only passed on.
use cpy_q.Prelude.{ℕ, Bool, true, false, Option, none, some}
use cpy_q.Prelude.Raises.{Raises, returns, raises}

-- `WSPeerRole`, `WSPeerType`
pub data PeerRole : Type 0 where
  server_role client_role : PeerRole

pub data PeerType : Type 0 where
  user_type autopilot_type : PeerType

-- A member of aiohttp's `WSCloseCode`, by its value, or of `CustomWSCloseCode`.
pub data CloseCode : Type 0 where
  standard : ℕ → CloseCode
  policy_violation abnormal_closure : CloseCode
  token_expired invalid_frame_type invalid_json missing_field invalid_type invalid_value : CloseCode
  duplicate_event_id ack_timeout unknown_event fatal_event bad_payload_context : CloseCode
  internal_error : CloseCode

-- The payload classes; a handshake has its `ack_timeout`, and a task its id.
pub data Payload : Type 0 where
  empty_payload : Payload
  user_handshake autopilot_handshake : ℕ → Payload
  task_assigned : ℕ → Payload
  task_done : Payload

pub data EventStatus : Type 0 where
  normal_status error_status fatal_status : EventStatus

pub record Event : Type 0 where
  pub id : ℕ
  pub status : EventStatus
  pub payload : Payload

unfoldable pub is_fatal : Event → Bool
is_fatal event = elim event.status [ fatal_status ↦ true | _ ↦ false ]

-- `CustomWSMessage`: an acknowledgement has the id of its event.
pub data Message : Type 0 where
  ws_event : Event → Message
  ws_ack : ℕ → Message

pub data MessageType : Type 0 where
  event_type ack_type : MessageType

-- What decoding may raise in `parse_received_message`. A RecursionError comes of a text that is nested
-- too deep.
pub data DecodeError : Type 0 where
  json_decode_error key_error type_error value_error recursion_error : DecodeError

-- The JSON of a message: a field that is missing is `none`, `sent_at` may be null, and a type that is
-- no member is `some none`. `decode` is the constructor of the class of the type.
pub record Body : Type 0 where
  pub sent_at : Option (Option ℕ)
  pub type : Option (Option MessageType)
  pub decode : MessageType → Raises DecodeError Message

-- A frame as it comes from the transport; `message.json()` may raise.
pub data Frame : Type 0 where
  other_frame : Frame
  text_frame : Raises DecodeError Body → Frame

-- The `try` block of `parse_received_message`
unfoldable pub parse_body : Body → Raises DecodeError Message
parse_body body = elim body.sent_at [
  | none ↦ raises key_error
  | some none ↦ raises type_error
  | some (some t) ↦ elim body.type [
    | none ↦ raises key_error
    | some none ↦ raises value_error
    | some (some type) ↦ body.decode type
  ]
]

-- Its `except` clauses, in their order (a `JSONDecodeError` is a `ValueError`). They do not catch a
-- RecursionError, which goes on to `__wrap_coro__` of Common/WebSocket/response.py; the code is the one
-- that it closes with.
abbrev pub protocol_code : DecodeError → CloseCode
protocol_code json_decode_error = invalid_json
protocol_code key_error = missing_field
protocol_code type_error = invalid_type
protocol_code value_error = invalid_value
protocol_code recursion_error = internal_error

unfoldable pub parse_received_message : Frame → Raises CloseCode Message
unfolding parse_body
parse_received_message other_frame = raises invalid_frame_type
parse_received_message (text_frame (raises error)) = raises (protocol_code error)
parse_received_message (text_frame (returns body)) = elim (parse_body body) [
  | returns message ↦ returns message
  | raises error ↦ raises (protocol_code error)
]
