-- ===== src/Codecs/Classes.antt =====
-- The classes of the repository that have codecs, as their class statements give them. Enumerations,
-- their members' texts and the classes are numbered.
use cpy_q.Prelude.{true, false, none, some, [], ◌∷◌}
use cpy_q.Codecs.Trees.{
  str_type, int_type, float_type, bool_type, frozenset_type, Codec, enum_codec, primitive_codec,
  datetime_codec, container_codec, serialisable_codec, Factory, of_class, picked_by, Schema,
  no_fields, field, no_variants, variant, Variants,
}
use cpy_q.Codecs.Key
use cpy_q.Codecs.Metaclass.{all_codecs}

abbrev pub permission_type : Codec
permission_type =
    enum_codec 0 (some 0 ∷ some 1 ∷ some 2 ∷ some 3 ∷ some 4 ∷ some 5 ∷ some 6 ∷ some 7 ∷ [])

abbrev pub permission_scope : Codec
permission_scope = enum_codec 1 (some 0 ∷ some 1 ∷ some 2 ∷ none ∷ [])

abbrev pub task_sort : Codec
task_sort = enum_codec 2 (some 0 ∷ [])

abbrev pub payload_kind : Codec
payload_kind = enum_codec 3 (some 0 ∷ some 1 ∷ some 2 ∷ some 3 ∷ [])

abbrev pub message_type : Codec
message_type = enum_codec 4 (some 0 ∷ some 1 ∷ [])

abbrev pub event_status : Codec
event_status = enum_codec 5 (some 0 ∷ some 1 ∷ some 2 ∷ [])

abbrev pub str_codec : Codec
str_codec = primitive_codec (str_type ∷ []) false

abbrev pub int_codec : Codec
int_codec = primitive_codec (int_type ∷ []) false

abbrev pub bool_codec : Codec
bool_codec = primitive_codec (bool_type ∷ []) false

abbrev pub float_codec : Codec
float_codec = primitive_codec (float_type ∷ []) false

abbrev pub optional_str : Codec
optional_str = primitive_codec (str_type ∷ []) true

abbrev pub optional_int : Codec
optional_int = primitive_codec (int_type ∷ []) true

abbrev pub required_datetime : Codec
required_datetime = datetime_codec false

abbrev pub optional_datetime : Codec
optional_datetime = datetime_codec true

abbrev pub frozenset_of : Factory → Codec
frozenset_of factory = container_codec frozenset_type (serialisable_codec factory)

abbrev pub serialisable : Schema
serialisable = all_codecs ([]) (no_fields)

abbrev pub identifiable : Schema
identifiable =
    all_codecs (serialisable ∷ [])
      (field Key.id (primitive_codec (str_type ∷ int_type ∷ []) false) no_fields)

abbrev pub str_identifiable : Schema
str_identifiable = all_codecs (identifiable ∷ []) (field Key.id str_codec no_fields)

abbrev pub int_identifiable : Schema
int_identifiable = all_codecs (identifiable ∷ []) (field Key.id int_codec no_fields)

abbrev pub permission : Schema
permission =
    all_codecs (serialisable ∷ [])
      (field Key.type permission_type (field Key.scope permission_scope no_fields))

abbrev pub company : Schema
company = all_codecs (int_identifiable ∷ []) (field Key.name str_codec no_fields)

abbrev pub team : Schema
team = all_codecs (int_identifiable ∷ []) (
    field Key.name str_codec (
      field Key.hierarchy_index int_codec (
        field Key.company (serialisable_codec (of_class 0 company))
          (field Key.permissions (frozenset_of (of_class 1 permission)) no_fields))))

abbrev pub user : Schema
user = all_codecs (int_identifiable ∷ []) (
    field Key.username str_codec (
      field Key.display_name optional_str
        (field Key.teams (frozenset_of (of_class 2 team)) no_fields)))

abbrev pub self_user : Schema
self_user = all_codecs (user ∷ []) (
    field Key.email optional_str
      (field Key.autopilot bool_codec (field Key.admin bool_codec no_fields)))

abbrev pub state : Schema
state = all_codecs (serialisable ∷ []) (no_fields)

abbrev pub session : Schema
session = all_codecs (str_identifiable ∷ []) (
    field Key.user (serialisable_codec (of_class 4 self_user)) (
      field Key.state (serialisable_codec (of_class 5 state))
        (field Key.resource_id optional_int no_fields)))

abbrev pub token : Schema
token = all_codecs (str_identifiable ∷ []) (
    field Key.access str_codec (
      field Key.refresh str_codec (
        field Key.access_expires required_datetime (
          field Key.refresh_expires required_datetime (
            field Key.killed_at optional_datetime
              (field Key.session (serialisable_codec (of_class 6 session)) no_fields))))))

-- `Formattable` is not Serialisable, and has no codecs.
abbrev pub formattable : Schema
formattable = no_fields

abbrev pub quote_metadata : Schema
quote_metadata =
    all_codecs (formattable ∷ int_identifiable ∷ [])
      (field Key.owner (serialisable_codec (of_class 3 user)) no_fields)

abbrev pub quote_preview : Schema
quote_preview = all_codecs (quote_metadata ∷ []) (no_fields)

abbrev pub quote_view : Schema
quote_view = all_codecs (quote_preview ∷ []) (no_fields)

abbrev pub quote : Schema
quote = all_codecs (quote_view ∷ []) (no_fields)

abbrev pub task : Schema
task = all_codecs (int_identifiable ∷ []) (
    field Key.sort task_sort
      (field Key.created_at required_datetime (field Key.completed_at optional_datetime no_fields)))

abbrev pub export_quote : Schema
export_quote =
    all_codecs (task ∷ []) (field Key.quote (serialisable_codec (of_class 7 quote)) no_fields)

-- `parse_received_task`, with the classes of `register_task_sort`
abbrev pub parse_received_task : Factory
parse_received_task = picked_by Key.sort 2 none (variant 0 8 export_quote no_variants)

abbrev pub payload : Schema
payload = all_codecs (serialisable ∷ []) (no_fields)

abbrev pub non_empty_payload : Schema
non_empty_payload = all_codecs (payload ∷ []) (field Key.kind payload_kind no_fields)

abbrev pub handshake : Schema
handshake = all_codecs (non_empty_payload ∷ []) (field Key.ack_timeout float_codec no_fields)

abbrev pub user_handshake : Schema
user_handshake = all_codecs (handshake ∷ []) (no_fields)

abbrev pub autopilot_handshake : Schema
autopilot_handshake = all_codecs (handshake ∷ []) (no_fields)

abbrev pub task_assigned : Schema
task_assigned =
    all_codecs (non_empty_payload ∷ [])
      (field Key.task (serialisable_codec parse_received_task) no_fields)

-- The class body spells `codecs` as `codes`, so it declares none.
abbrev pub task_done : Schema
task_done = all_codecs (non_empty_payload ∷ []) (no_fields)

-- The classes of `register_payload_kind`
abbrev pub payload_classes : Variants
payload_classes = variant 0 10 user_handshake (
    variant 1 11 autopilot_handshake
      (variant 2 12 task_assigned (variant 3 13 task_done no_variants)))

-- `parse_received_payload`, with those classes and that of `EMPTY_PAYLOAD`
abbrev pub parse_received_payload : Factory
parse_received_payload = picked_by Key.kind 3 (some 14) payload_classes

abbrev pub message : Schema
message =
    all_codecs (str_identifiable ∷ [])
      (field Key.type message_type (field Key.sent_at optional_datetime no_fields))

abbrev pub ws_event : Schema
ws_event = all_codecs (message ∷ []) (
    field Key.status event_status (
      field Key.reason optional_str
        (field Key.payload (serialisable_codec parse_received_payload) no_fields)))

abbrev pub ws_ack : Schema
ws_ack = all_codecs (message ∷ []) (no_fields)
