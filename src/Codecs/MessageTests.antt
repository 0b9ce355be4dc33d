-- ===== src/Codecs/MessageTests.antt =====
-- Messages of Common/WebSocket/messages.py: a handshake event and its acknowledgement.
use cpy_q.Prelude.{ℕ, ◌≡◌, refl, ◌⊎◌, true, false, none, some}
use cpy_q.Prelude.Raises.{returns, raises}
use cpy_q.Messages.{invalid_type}
use cpy_q.Codecs.Trees.{
  null, real, text, Json, primitive, dict, Entries, no_entries, entry, serialisable_codec, plain,
  member_of, moment, object, Members, no_members, member,
}
use cpy_q.Codecs.{
  value_error, runtime_error, Clock, Object, lookup_entry, get_field, get_member, validate,
  decode_enum, decode_leaf, decode, make, make_variant, set_attributes, encode, json,
}
use cpy_q.Codecs.Conforms.{IsWritten, here}
use cpy_q.Codecs.Key
use cpy_q.Codecs.Classes
use cpy_q.Codecs.Metaclass.{all_codecs, update, inherited, set_field}
use cpy_q.Codecs.Proper.{has_proper, picks_proper}
use cpy_q.Codecs.Typing.{set_attributes-Fits}
use cpy_q.Codecs.Messages.{
  set_entry, build, build_handshake, too_deep, json_frame, closes, uncaught, parse_json,
  parse_received_message, with_sent_at, from_payload, from_event,
}
use cpy_q.Codecs.Building.{build-decode}
use cpy_q.Codecs.Caught.{Parsed, parse_received_message-Parsed}
use cpy_q.Codecs.Sending.{set_member, an_event, with_sent_at_received}

-- Datetimes that are numbers of themselves
abbrev clock : Clock
clock = record { Time = ℕ; is_aware = λ t. true; strftime = λ t. t; strptime = λ s. some s }

written : (s : ℕ) (t : ℕ) → clock.strptime s ≡ some t → IsWritten clock t
written s t h = (refl, refl)

abbrev event_entries : Entries
event_entries = entry Key.type (primitive (text 0)) (
    entry Key.id (primitive (text 80)) (
      entry Key.sent_at (primitive null) (
        entry Key.status (primitive (text 0)) (
          entry Key.reason (primitive null) (
            entry Key.payload
              (dict (
                entry Key.kind (primitive (text 0))
                  (entry Key.ack_timeout (primitive (real 5)) no_entries)))
              no_entries)))))

abbrev payload_members : Members ℕ
payload_members =
    member Key.kind Classes.payload_kind (member_of 3 (some 0))
      (member Key.ack_timeout Classes.float_codec (plain (real 5)) no_members)

abbrev event_members : Members ℕ
event_members = member Key.id Classes.str_codec (plain (text 80)) (
    member Key.type Classes.message_type (member_of 4 (some 0)) (
      member Key.sent_at Classes.optional_datetime (plain null) (
        member Key.status Classes.event_status (member_of 5 (some 0)) (
          member Key.reason Classes.optional_str (plain null) (
            member Key.payload (serialisable_codec Classes.parse_received_payload)
              (object 10 payload_members) no_members)))))

event-set : set_attributes clock Classes.ws_event event_entries ≡ returns event_members
unfolding set_attributes make make_variant decode decode_leaf decode_enum validate lookup_entry
    all_codecs update inherited set_field
event-set = refl

event-has_proper : has_proper Classes.ws_event ≡ true
unfolding has_proper all_codecs update inherited set_field get_field
event-has_proper = refl

event-made : from_payload clock 80 0 none payload_members ≡ returns (object 15 event_members)
unfolding from_payload json encode validate make
event-made = rw event-set

ack-made :
    from_event clock 80
    ≡ returns (
        object 16 (
          member Key.id Classes.str_codec (plain (text 80)) (
            member Key.type Classes.message_type
              (member_of 4 (some 1))
              (member Key.sent_at Classes.optional_datetime (plain null) no_members))))
unfolding from_event make set_attributes decode decode_leaf decode_enum validate lookup_entry
    all_codecs update inherited set_field
ack-made = refl

-- A frame without `sent_at` is refused.
unsent :
    parse_received_message clock (json_frame (dict event_entries)) ≡ raises (closes invalid_type)
unfolding parse_received_message parse_json lookup_entry
unsent = refl

event-type : get_member Key.type event_members ≡ some (member_of 4 (some 0))
unfolding get_member
event-type = refl

with_sent_at_received_example :
    (es : Entries) × (with_sent_at clock 15 Classes.ws_event 1000 event_members
      ≡ returns (object 15 (set_member clock Key.sent_at (moment 1000) event_members)))
    × (json clock (set_member clock Key.sent_at (moment 1000) event_members) ≡ returns es)
    × (parse_received_message clock (json_frame (dict es))
        ≡ returns (object 15 (set_member clock Key.sent_at (moment 1000) event_members)))
with_sent_at_received_example =
    with_sent_at_received clock 15 0 Classes.ws_event event_members 1000 an_event
      (set_attributes-Fits clock written Classes.ws_event event_entries event_members
        event-has_proper event-set)
      event-type (refl, refl)

parse_received_message-Parsed_example :
    Parsed clock (parse_received_message clock (json_frame (dict event_entries)))
    ⊎ ((json_frame (dict event_entries) ≡ too_deep)
        × (parse_received_message clock (json_frame (dict event_entries))
            ≡ raises (uncaught runtime_error)))
parse_received_message-Parsed_example =
    parse_received_message-Parsed clock (json_frame (dict event_entries))

abbrev handshake_object : Object clock
handshake_object = object 10 payload_members

handshake-build : build_handshake clock false 5 ≡ returns handshake_object
unfolding build_handshake build set_entry make set_attributes decode decode_leaf decode_enum
    validate lookup_entry all_codecs update inherited set_field
handshake-build = refl

-- A payload that already has a kind is refused.
kind_given :
    build clock Key.kind 0 10 Classes.handshake (entry Key.kind (primitive (text 3)) no_entries)
    ≡ raises value_error
unfolding build lookup_entry
kind_given = refl

payload-picks_proper : picks_proper Key.kind 3 Classes.payload_classes ≡ true
unfolding picks_proper has_proper get_field all_codecs update inherited set_field
payload-picks_proper = refl

build-decode_example :
    (j : Json) × (encode clock (serialisable_codec Classes.parse_received_payload) handshake_object
      ≡ returns j)
    × (decode clock (serialisable_codec Classes.parse_received_payload) j
        ≡ returns handshake_object)
unfolding build_handshake
build-decode_example =
    build-decode clock written Key.kind 3 0 10 (some 14) Classes.payload_classes
      Classes.user_handshake (entry Key.ack_timeout (primitive (real 5)) no_entries)
      handshake_object payload-picks_proper here handshake-build
