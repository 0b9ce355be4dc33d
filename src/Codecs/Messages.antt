-- ===== src/Codecs/Messages.antt =====
-- The classes of Common/WebSocket/messages.py with their codecs: how messages are made, stamped, and read
-- from a frame.
use cpy_q.Prelude.{
  ℕ, zero, suc, Bool, true, false, Option, none, some, ◌==◌, if◌then◌else◌, is_some,
}
use cpy_q.Prelude.Raises.{Raises, returns, raises, ◌>>=◌}
use cpy_q.Messages.{
  CloseCode, invalid_frame_type, invalid_json, missing_field, invalid_type, invalid_value,
}
use cpy_q.Codecs.Trees.{
  null, real, text, Json, primitive, dict, Entries, no_entries, entry, Schema, of_class, member_of,
  Members,
}
use cpy_q.Codecs.{
  CodecError, type_error, value_error, key_error, runtime_error, Clock, Object, lookup_entry,
  encode_datetime, decode, make, json, attribute,
}
use cpy_q.Codecs.Key
use cpy_q.Codecs.Classes

-- `json[key] = value`
unfoldable pub set_entry : ℕ → Json → Entries → Entries
set_entry key j no_entries = entry key j no_entries
set_entry key j (entry k i rest) =
    let later = set_entry key j rest in if key == k then entry k j rest else entry k i later

-- A frame of the transport, by what `message.json()` does with it: a frame of another type, a text that
-- is no JSON (a JSONDecodeError), one with a number that Python refuses to read (another ValueError,
-- as for an integer of thousands of digits), one that is nested too deep for Python's reader (a
-- RecursionError, which is a RuntimeError), or a text with its JSON.
pub data Frame : Type 0 where
  other_frame : Frame
  not_json : Frame
  not_readable : Frame
  too_deep : Frame
  json_frame : Json → Frame

-- What `parse_received_message` raises: `protocol_error`, or what it does not catch.
pub data Failure : Type 0 where
  closes : CloseCode → Failure
  uncaught : CodecError → Failure

abbrev pub failure_of : CodecError → Failure
failure_of key_error = closes missing_field
failure_of type_error = closes invalid_type
failure_of value_error = closes invalid_value
failure_of error = uncaught error

abbrev pub or_fail : {A : Type 0} → Raises CodecError A → Raises Failure A
or_fail (returns a) = returns a
or_fail (raises error) = raises (failure_of error)

-- `json[key]`
abbrev pub item_of : ℕ → Json → Raises CodecError Json
item_of key (dict es) = attribute (lookup_entry key es) (λ j. returns j)
item_of key _ = raises type_error

-- `if json["sent_at"] is None`
abbrev pub require : Json → Raises CodecError Unit
require (primitive null) = raises type_error
require _ = returns tt

-- `handshake_cls` of a user's proxy, and of an autopilot's
abbrev pub handshake_class : Bool → ℕ × ℕ × Schema
handshake_class false = (0, 10, Classes.user_handshake)
handshake_class true = (1, 11, Classes.autopilot_handshake)

abbrev pub reason_json : Option ℕ → Json
reason_json none = primitive null
reason_json (some reason) = primitive (text reason)

module _ (clock : Clock) where
  -- `_MAPPING[type_]`, called on the JSON
  abbrev pub make_message : Object clock → Json → Raises CodecError (Object clock)
  make_message (member_of cls (some zero)) j = make clock (of_class 15 Classes.ws_event) j
  make_message (member_of cls (some (suc zero))) j = make clock (of_class 16 Classes.ws_ack) j
  make_message _ j = raises key_error

  -- The `try` of `parse_received_message`
  unfoldable pub parse_json : Json → Raises CodecError (Object clock)
  parse_json j = item_of Key.sent_at j >>= λ sent_at. require sent_at >>= λ _.
      item_of Key.type j >>= λ type.
      decode clock Classes.message_type type >>= λ type_. make_message type_ j

  unfoldable pub parse_received_message : Frame → Raises Failure (Object clock)
  unfolding parse_json
  parse_received_message other_frame = raises (closes invalid_frame_type)
  parse_received_message not_json = raises (closes invalid_json)
  parse_received_message not_readable = or_fail (raises value_error)
  parse_received_message too_deep = or_fail (raises runtime_error)
  parse_received_message (json_frame j) = or_fail (parse_json j)

  -- `CustomWSMessage.with_sent_at`, of an object of the class
  unfoldable pub with_sent_at :
      ℕ → Schema → clock.Time → Members clock.Time → Raises CodecError (Object clock)
  unfolding json encode_datetime set_entry make
  with_sent_at cls schema sent_at ms = json clock ms >>= λ es.
      encode_datetime clock sent_at >>= λ s.
      make clock (of_class cls schema) (dict (set_entry Key.sent_at (primitive s) es))

  -- `WSEvent.from_payload`, with the id of `make_id`
  unfoldable pub from_payload :
      ℕ → ℕ → Option ℕ → Members clock.Time → Raises CodecError (Object clock)
  unfolding json make
  from_payload id status reason payload = json clock payload >>= λ p.
      make clock (of_class 15 Classes.ws_event) (
        dict (
          entry Key.type (primitive (text 0)) (
            entry Key.id (primitive (text id)) (
              entry Key.sent_at (primitive null) (
                entry Key.status (primitive (text status)) (
                  entry Key.reason (reason_json reason)
                    (entry Key.payload (dict p) no_entries)))))))

  -- `WSAck.from_event`, of the event's id
  unfoldable pub from_event : ℕ → Raises CodecError (Object clock)
  unfolding make
  from_event id = make clock (of_class 16 Classes.ws_ack) (
      dict (
        entry Key.type (primitive (text 1))
          (entry Key.id (primitive (text id)) (entry Key.sent_at (primitive null) no_entries))))

  -- `build_payload` and `build_task` for a class with its kind or sort, a text under the key
  unfoldable pub build : ℕ → ℕ → ℕ → Schema → Entries → Raises CodecError (Object clock)
  unfolding lookup_entry set_entry make
  build key tag cls schema es =
      if is_some (lookup_entry key es)
      then raises value_error
      else make clock (of_class cls schema) (dict (set_entry key (primitive (text tag)) es))

  -- `BaseWebSocketService.build_handshake`: the policy of the configuration has the time limit.
  unfoldable pub build_handshake : Bool → ℕ → Raises CodecError (Object clock)
  unfolding build
  build_handshake autopilot ack_timeout =
      let (kind, cls, schema) = handshake_class autopilot in
      build Key.kind kind cls schema
        (entry Key.ack_timeout (primitive (real ack_timeout)) no_entries)
