-- ===== src/Codecs.antt =====
-- Common/codecs.py, the class Serialisable of Common/bases.py, and the helpers of Common/utils.py that
-- they use. Decoding goes by the codec, and encoding by the value, as in the source: an object
-- encodes itself by the codecs of its own class.
pub mod Trees
pub mod Key
pub mod Metaclass
pub mod Classes
pub mod Messages
pub mod Caught
pub mod Sending
pub mod Building
pub mod Conforms
pub mod Proper
pub mod Sets
pub mod Typing
mod Tests
mod MessageTests
pub mod Returned
pub mod Decoded
pub mod Catches
pub mod RoundTrip
use cpy_q.Prelude.{
  ℕ, Bool, true, false, not, ◌&&◌, ◌||◌, Option, none, some, List, [], ◌∷◌, any, ◌==◌,
  if◌then◌else◌,
}
use cpy_q.Codecs.Trees.{
  Primitive, null, boolean, integer, real, text, PrimitiveType, str_type, int_type, float_type,
  bool_type, ContainerType, list_type, tuple_type, set_type, frozenset_type, Json, primitive, array,
  dict, Items, no_items, item, Entries, no_entries, entry, Codec, enum_codec, primitive_codec,
  datetime_codec, container_codec, serialisable_codec, Factory, of_class, picked_by, Schema,
  no_fields, field, Variants, no_variants, variant, Value, plain, member_of, moment, container,
  object, Values, no_values, value, Members, no_members, member,
}
use cpy_q.Prelude.Raises.{Raises, returns, raises, ◌>>=◌}

pub data CodecError : Type 0 where
  type_error value_error key_error attribute_error runtime_error : CodecError

-- Python's `datetime`: whether it has a `tzinfo`, and `strftime` and `strptime` with
-- `ENCODE_DATETIME_FORMAT`.
pub record Clock : Type 1 where
  pub Time : Type 0
  pub is_aware : Time → Bool
  pub strftime : Time → ℕ
  pub strptime : ℕ → Option Time

-- The target of `decompose`: a class outside Serialisable, Serialisable itself, which must not be
-- instantiated, or a proper subclass of it, with its codecs.
pub data Target : Type 0 where
  other_class : Target
  the_base : Target
  subclass : ℕ → Schema → Target

-- `isinstance(obj, cls)`; `bool` is a subclass of `int`.
abbrev pub is_instance : Primitive → PrimitiveType → Bool
is_instance (text t) str_type = true
is_instance (integer n) int_type = true
is_instance (boolean b) int_type = true
is_instance (real n) float_type = true
is_instance (boolean b) bool_type = true
is_instance _ _ = false

abbrev pub is_null : Primitive → Bool
is_null null = true
is_null _ = false

-- The test of `validate`, which raises TypeError where it fails. (For a union of types, whose name the
-- message cannot form, the code raises AttributeError; every class that is instantiated replaces the
-- codec of Identifiable that has one.)
abbrev pub is_valid : List PrimitiveType → Bool → Primitive → Bool
is_valid types optional p = (optional && is_null p) || any (is_instance p) types

unfoldable pub validate : List PrimitiveType → Bool → Primitive → Raises CodecError Primitive
validate types optional p = if is_valid types optional p then returns p else raises type_error

abbrev pub same_type : ContainerType → ContainerType → Bool
same_type list_type list_type = true
same_type tuple_type tuple_type = true
same_type set_type set_type = true
same_type frozenset_type frozenset_type = true
same_type _ _ = false

-- A member's value, in JSON
abbrev pub enum_value : Option ℕ → Primitive
enum_value none = null
enum_value (some t) = text t

abbrev pub same_member : Option ℕ → Option ℕ → Bool
same_member none none = true
same_member (some a) (some b) = a == b
same_member _ _ = false

-- `cls(value)` of an enumeration
unfoldable pub decode_enum : ℕ → List (Option ℕ) → Json → Raises CodecError (Option ℕ)
decode_enum cls members (primitive null) =
    if any (same_member none) members then returns none else raises value_error
decode_enum cls members (primitive (text t)) =
    if any (same_member (some t)) members then returns (some t) else raises value_error
decode_enum cls members _ = raises value_error

-- What `encode` raises for a value of another kind: `validate` does, or an attribute is missing. (A
-- member of a StrEnum is a `str` too; no class has one where a text is expected.)
abbrev pub mismatch : Codec → CodecError
mismatch (enum_codec cls members) = type_error
mismatch (primitive_codec types optional) = type_error
mismatch (datetime_codec optional) = attribute_error
mismatch (container_codec kind c) = type_error
mismatch (serialisable_codec factory) = attribute_error

-- `json[key]`
unfoldable pub lookup_entry : ℕ → Entries → Option Json
lookup_entry key no_entries = none
lookup_entry key (entry k j rest) = if key == k then some j else lookup_entry key rest

-- `PayloadKind(json["kind"])` and `TaskSort(json["sort"])`, of enumerations whose members all have a
-- class; whether the text is a member's is asked of the classes.
abbrev pub tag_of : Option Json → Raises CodecError ℕ
tag_of none = raises key_error
tag_of (some (primitive (text tag))) = returns tag
tag_of (some _) = raises value_error

-- `codecs[key]`
unfoldable pub get_field : ℕ → Schema → Option Codec
get_field key no_fields = none
get_field key (field k c rest) = if key == k then some c else get_field key rest

-- `codec.decode(json[key])`
abbrev pub attribute :
    {A : Type 0} → Option Json → (Json → Raises CodecError A) → Raises CodecError A
attribute none decode_it = raises key_error
attribute (some j) decode_it = decode_it j

-- The key `id`, whose attribute `__eq__` of Identifiable compares
abbrev pub id_key : ℕ
id_key = 0

-- `int(b)`
abbrev pub int_of : Bool → ℕ
int_of true = 1
int_of false = 0

-- `==` of two ids, which are texts and integers; a `bool` is an integer.
abbrev pub same_primitive : Primitive → Primitive → Bool
same_primitive (text a) (text b) = a == b
same_primitive (integer a) (integer b) = a == b
same_primitive (integer a) (boolean b) = a == int_of b
same_primitive (boolean a) (integer b) = int_of a == b
same_primitive (boolean a) (boolean b) = int_of a == int_of b
same_primitive _ _ = false

module _ {Time : Type 0} where
  unfoldable pub get_member : ℕ → Members Time → Option (Value Time)
  get_member key no_members = none
  get_member key (member k c v rest) = if key == k then some v else get_member key rest

  abbrev pub id_of : Value Time → Option (Value Time)
  id_of (object cls ms) = get_member id_key ms
  id_of _ = none

  -- `==` of two new objects: identifiable ones are compared by their ids, others are never equal. The
  -- sets of the program have only objects in them.
  unfoldable pub same_object : Value Time → Value Time → Bool
  same_object v w = elim (id_of v) [
    | some (plain a) ↦ elim (id_of w) [ some (plain b) ↦ same_primitive a b | _ ↦ false ]
    | _ ↦ false
  ]

  -- A set keeps the first of equal items; its order is that in which they came.
  unfoldable pub remove_same : Value Time → Values Time → Values Time
  remove_same v no_values = no_values
  remove_same v (value w rest) =
      let later = remove_same v rest in if same_object v w then later else value w later

  unfoldable pub unique : Values Time → Values Time
  unfolding remove_same
  unique no_values = no_values
  unique (value v rest) = value v (remove_same v (unique rest))

  -- `self.cls(items)`
  abbrev pub collect : ContainerType → Values Time → Values Time
  collect list_type vs = vs
  collect tuple_type vs = vs
  collect set_type vs = unique vs
  collect frozenset_type vs = unique vs

  -- `self.item_codec.decode(item) for item in value`
  unfoldable pub decode_items :
      (Json → Raises CodecError (Value Time)) → Items → Raises CodecError (Values Time)
  decode_items decode_item no_items = returns no_values
  decode_items decode_item (item j rest) =
      decode_item j >>= λ v. decode_items decode_item rest >>= λ vs. returns (value v vs)

  -- What `strptime` returns or raises
  abbrev pub parsed : Option Time → Raises CodecError Time
  parsed none = raises value_error
  parsed (some t) = returns t

  -- `except Exception as error: raise ValueError from error`
  abbrev pub as_value_error : Raises CodecError (Value Time) → Raises CodecError (Value Time)
  as_value_error (returns v) = returns v
  as_value_error (raises error) = raises value_error

module _ (clock : Clock) where
  abbrev pub Object : Type 0
  Object = Value clock.Time

  unfoldable pub encode_datetime : clock.Time → Raises CodecError Primitive
  encode_datetime t =
      if clock.is_aware t then returns (text (clock.strftime t)) else raises value_error

  unfoldable pub decode_datetime : Json → Raises CodecError clock.Time
  decode_datetime (primitive (text s)) = parsed (clock.strptime s)
  decode_datetime _ = raises type_error

  -- The `decode` of EnumCodec, PrimitiveCodec and DatetimeCodec
  unfoldable pub decode_leaf : Codec → Json → Raises CodecError Object
  unfolding decode_enum validate decode_datetime
  decode_leaf (enum_codec cls members) j =
      decode_enum cls members j >>= λ m. returns (member_of cls m)
  decode_leaf (primitive_codec types optional) (primitive p) =
      validate types optional p >>= λ q. returns (plain q)
  decode_leaf (datetime_codec true) (primitive null) = returns (plain null)
  decode_leaf (datetime_codec optional) (primitive (text s)) =
      decode_datetime (primitive (text s)) >>= λ t. returns (moment t)
  decode_leaf _ _ = raises type_error

  unfoldable mutual
    unfolding decode_leaf decode_items

    -- `Codec.decode`
    pub decode : Codec → Json → Raises CodecError Object
    decode (enum_codec cls members) j = decode_leaf (enum_codec cls members) j
    decode (primitive_codec types optional) j = decode_leaf (primitive_codec types optional) j
    decode (datetime_codec optional) j = decode_leaf (datetime_codec optional) j
    decode (container_codec kind c) (array js) =
        decode_items (decode c) js >>= λ vs. returns (container kind (collect kind vs))
    decode (container_codec kind c) _ = raises type_error
    decode (serialisable_codec factory) j = make factory j

    -- `factory(json)`
    pub make : Factory → Json → Raises CodecError Object
    make (of_class cls schema) (dict es) =
        set_attributes schema es >>= λ ms. returns (object cls ms)
    make (picked_by key enum (some cls) classes) (dict no_entries) = returns (object cls no_members)
    make (picked_by key enum empty classes) (dict es) =
        tag_of (lookup_entry key es) >>= λ tag. make_variant tag classes es
    make factory _ = raises type_error

    pub make_variant : ℕ → Variants → Entries → Raises CodecError Object
    make_variant tag no_variants es = raises value_error
    make_variant tag (variant t cls schema rest) es =
        if tag == t
        then (set_attributes schema es >>= λ ms. returns (object cls ms))
        else make_variant tag rest es

    -- `for key, codec in cls.codecs.items(): setattr(self, key, codec.decode(json[key]))`
    pub set_attributes : Schema → Entries → Raises CodecError (Members clock.Time)
    set_attributes no_fields es = returns no_members
    set_attributes (field key c rest) es = attribute (lookup_entry key es) (decode c) >>= λ v.
        set_attributes rest es >>= λ ms. returns (member key c v ms)

  unfoldable mutual
    unfolding validate encode_datetime

    -- `Codec.encode`
    pub encode : Codec → Object → Raises CodecError Json
    encode (enum_codec cls members) (member_of cls' m) =
        if cls == cls' then returns (primitive (enum_value m)) else raises type_error
    encode (primitive_codec types optional) (plain p) =
        validate types optional p >>= λ q. returns (primitive q)
    encode (datetime_codec true) (plain null) = returns (primitive null)
    encode (datetime_codec optional) (moment t) = encode_datetime t >>= λ s. returns (primitive s)
    encode (container_codec kind c) (container kind' vs) =
        if same_type kind kind'
        then (encode_items c vs >>= λ js. returns (array js))
        else raises type_error
    encode (serialisable_codec factory) (object cls ms) = json ms >>= λ es. returns (dict es)
    encode c _ = raises (mismatch c)

    pub encode_items : Codec → Values clock.Time → Raises CodecError Items
    encode_items c no_values = returns no_items
    encode_items c (value v rest) =
        encode c v >>= λ j. encode_items c rest >>= λ js. returns (item j js)

    -- `Serialisable.json`
    pub json : Members clock.Time → Raises CodecError Entries
    json no_members = returns no_entries
    json (member key c v rest) = encode c v >>= λ j. json rest >>= λ es. returns (entry key j es)

  -- `Serialisable.decompose`; any exception of `target(self.json())` becomes a `ValueError`.
  unfoldable pub decompose : Target → Members clock.Time → Raises CodecError Object
  unfolding json make
  decompose other_class ms = raises type_error
  decompose the_base ms = as_value_error (json ms >>= λ es. raises runtime_error)
  decompose (subclass cls schema) ms =
      as_value_error (json ms >>= λ es. make (of_class cls schema) (dict es))
