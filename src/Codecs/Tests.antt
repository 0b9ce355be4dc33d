-- ===== src/Codecs/Tests.antt =====
-- The codecs of Common/codecs.py on a user with a team, and on a message with a handshake.
use cpy_q.Prelude.{ℕ, ◌≡◌, refl, true, false, none, some, [], ◌∷◌}
use cpy_q.Prelude.Raises.{returns, raises}
use cpy_q.Codecs.Trees.{
  null, boolean, integer, real, text, frozenset_type, Json, primitive, array, dict, no_items, item,
  Entries, no_entries, entry, Codec, serialisable_codec, of_class, field, no_fields, plain,
  member_of, container, object, no_values, value, Members, no_members, member,
}
use cpy_q.Codecs.{
  type_error, key_error, value_error, Clock, Object, get_field, validate, lookup_entry, get_member,
  same_object, remove_same, unique, decode_enum, decode_items, decode_leaf, decode, make, subclass,
  the_base, other_class, make_variant, set_attributes, encode, decompose,
}
use cpy_q.Codecs.Conforms.{IsWritten, Conforms}
use cpy_q.Codecs.Key
use cpy_q.Codecs.Classes
use cpy_q.Codecs.Metaclass.{all_codecs, update, inherited, set_field, resolve, get_field-all_codecs}
use cpy_q.Codecs.Proper.{is_proper, has_proper}
use cpy_q.Codecs.RoundTrip.{decode-encode, decompose-project}
use cpy_q.Codecs.Typing.{set_attributes-Fits, decode-Conforms}

-- Datetimes that are numbers of themselves
abbrev clock : Clock
clock = record { Time = ℕ; is_aware = λ t. true; strftime = λ t. t; strptime = λ s. some s }

written : (s : ℕ) (t : ℕ) → clock.strptime s ≡ some t → IsWritten clock t
written s t h = (refl, refl)

abbrev company_json : Json
company_json =
    dict (entry Key.id (primitive (integer 4)) (entry Key.name (primitive (text 90)) no_entries))

abbrev permission_json : Json
permission_json =
    dict (entry Key.type (primitive (text 2)) (entry Key.scope (primitive null) no_entries))

abbrev team_json : Json
team_json = dict (
    entry Key.id (primitive (integer 7)) (
      entry Key.name (primitive (text 91)) (
        entry Key.hierarchy_index (primitive (integer 1)) (
          entry Key.company company_json
            (entry Key.permissions (array (item permission_json no_items)) no_entries)))))

-- The row of a user has keys that the class does not read, and the same team twice.
abbrev user_entries : Entries
user_entries = entry Key.id (primitive (integer 3)) (
    entry Key.username (primitive (text 92)) (
      entry Key.display_name (primitive null) (
        entry Key.teams (array (item team_json (item team_json no_items))) (
          entry Key.email (primitive (text 93)) (
            entry Key.autopilot (primitive (boolean false)) (
              entry Key.admin (primitive (boolean true))
                (entry Key.access (primitive (text 94)) no_entries)))))))

abbrev company_object : Object clock
company_object = object 0 (
    member Key.id Classes.int_codec (plain (integer 4))
      (member Key.name Classes.str_codec (plain (text 90)) no_members))

abbrev permission_object : Object clock
permission_object = object 1 (
    member Key.type Classes.permission_type (member_of 0 (some 2))
      (member Key.scope Classes.permission_scope (member_of 1 none) no_members))

abbrev team_object : Object clock
team_object = object 2 (
    member Key.id Classes.int_codec (plain (integer 7)) (
      member Key.name Classes.str_codec (plain (text 91)) (
        member Key.hierarchy_index Classes.int_codec (plain (integer 1)) (
          member Key.company (serialisable_codec (of_class 0 Classes.company)) company_object (
            member Key.permissions (Classes.frozenset_of (of_class 1 Classes.permission))
              (container frozenset_type (value permission_object no_values)) no_members)))))

abbrev user_members : Members ℕ → Members ℕ
user_members rest = member Key.id Classes.int_codec (plain (integer 3)) (
    member Key.username Classes.str_codec (plain (text 92)) (
      member Key.display_name Classes.optional_str (plain null) (
        member Key.teams (Classes.frozenset_of (of_class 2 Classes.team))
          (container frozenset_type (value team_object no_values)) rest)))

abbrev self_user_members : Members ℕ
self_user_members = user_members (
    member Key.email Classes.optional_str (plain (text 93)) (
      member Key.autopilot Classes.bool_codec (plain (boolean false))
        (member Key.admin Classes.bool_codec (plain (boolean true)) no_members)))

abbrev self_user_codec : Codec
self_user_codec = serialisable_codec (of_class 4 Classes.self_user)

self_user-set : set_attributes clock Classes.self_user user_entries ≡ returns self_user_members
unfolding set_attributes decode decode_leaf validate decode_items decode_enum unique remove_same
    same_object get_member lookup_entry all_codecs update inherited set_field
self_user-set = refl

self_user-has_proper : has_proper Classes.self_user ≡ true
unfolding has_proper all_codecs update inherited set_field get_field
self_user-has_proper = refl

abbrev self_user_object : Object clock
self_user_object = object 4 self_user_members

self_user-decode : decode clock self_user_codec (dict user_entries) ≡ returns self_user_object
unfolding decode make
self_user-decode = rw self_user-set

self_user-is_proper : is_proper self_user_codec ≡ true
unfolding is_proper
self_user-is_proper = self_user-has_proper

-- A missing key, a member of no enumeration and a wrong class.
missing_key :
    decode clock
      (serialisable_codec (of_class 0 Classes.company))
      (dict (entry Key.id (primitive (integer 4)) no_entries))
    ≡ raises key_error
unfolding decode decode_leaf validate lookup_entry all_codecs update inherited set_field
missing_key = refl

unknown_member : decode clock Classes.permission_type (primitive (text 8)) ≡ raises value_error
unfolding decode decode_leaf decode_enum
unknown_member = refl

wrong_class : decode clock Classes.float_codec (primitive (integer 5)) ≡ raises type_error
unfolding decode decode_leaf validate
wrong_class = refl

get_field-all_codecs_example :
    get_field Key.id
      (all_codecs (Classes.identifiable ∷ []) (field Key.id Classes.int_codec no_fields))
    ≡ resolve Key.id (field Key.id Classes.int_codec no_fields) (Classes.identifiable ∷ [])
unfolding all_codecs update inherited set_field
get_field-all_codecs_example =
    get_field-all_codecs Key.id (field Key.id Classes.int_codec no_fields)
      (Classes.identifiable ∷ []) refl (refl, tt)

decode-Conforms_example : Conforms clock self_user_codec self_user_object
decode-Conforms_example =
    decode-Conforms clock written self_user_codec (dict user_entries) self_user_object
      self_user-is_proper self_user-decode

decode-encode_example :
    (j : Json) × (encode clock self_user_codec self_user_object ≡ returns j)
    × (decode clock self_user_codec j ≡ returns self_user_object)
decode-encode_example = decode-encode clock self_user_codec self_user_object (
    decode-Conforms clock written self_user_codec (dict user_entries) self_user_object
      self_user-is_proper self_user-decode)

-- A `SelfUser` decomposes into a `User`, as in the quotes that users see.
decompose-project_example :
    (decompose clock (subclass 3 Classes.user) self_user_members
      ≡ returns (object 3 (user_members no_members)))
    × (decompose clock the_base self_user_members ≡ raises value_error)
    × (decompose clock other_class self_user_members ≡ raises type_error)
unfolding get_field get_member all_codecs update inherited set_field
decompose-project_example =
    decompose-project clock 3 Classes.user Classes.self_user self_user_members
      (set_attributes-Fits clock written Classes.self_user user_entries self_user_members
        self_user-has_proper self_user-set)
      (refl, (refl, (refl, (refl, tt))))

-- A payload is made by the class of its kind, and `{}` by that of `EMPTY_PAYLOAD`.
handshake_received :
    make clock Classes.parse_received_payload (
      dict (
        entry Key.kind
          (primitive (text 0))
          (entry Key.ack_timeout (primitive (real 5)) no_entries)))
    ≡ returns (
        object 10 (
          member Key.kind Classes.payload_kind
            (member_of 3 (some 0))
            (member Key.ack_timeout Classes.float_codec (plain (real 5)) no_members)))
unfolding make make_variant set_attributes decode decode_leaf decode_enum validate lookup_entry
    all_codecs update inherited set_field
handshake_received = refl

empty_received :
    make clock Classes.parse_received_payload (dict no_entries) ≡ returns (object 14 no_members)
unfolding make
empty_received = refl
