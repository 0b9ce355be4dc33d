-- ===== src/Codecs/Trees.antt =====
-- JSON, Python values and the codecs themselves, as trees. Numbers and texts are only passed on or
-- compared, so each is the number of its value, with 0 and 1 for the integers 0 and 1; a class, an enumeration and a key are numbers too.
use cpy_q.Prelude.{ℕ, Bool, Option, List}

-- A primitive, in JSON and in Python.
pub data Primitive : Type 0 where
  null : Primitive
  boolean : Bool → Primitive
  integer real text : ℕ → Primitive

-- The classes that the codecs name.
pub data PrimitiveType : Type 0 where
  str_type int_type float_type bool_type : PrimitiveType

pub data ContainerType : Type 0 where
  list_type tuple_type set_type frozenset_type : ContainerType

mutual
  pub data Json : Type 0 where
    primitive : Primitive → Json
    array : Items → Json
    dict : Entries → Json

  pub data Items : Type 0 where
    no_items : Items
    item : Json → Items → Items

  pub data Entries : Type 0 where
    no_entries : Entries
    entry : ℕ → Json → Entries → Entries

-- The codecs of Common/codecs.py. An enumeration has its members' values, texts or `None`. A factory
-- is a class with its codecs, or a function that picks the class by a key of the JSON, of the shape of
-- `parse_received_payload` and `parse_received_task`; the first number is the key, the second the
-- enumeration of its values, and the third the class of `EMPTY_PAYLOAD`, where `{}` is allowed.
mutual
  pub data Codec : Type 0 where
    enum_codec : ℕ → List (Option ℕ) → Codec
    primitive_codec : List PrimitiveType → Bool → Codec
    datetime_codec : Bool → Codec
    container_codec : ContainerType → Codec → Codec
    serialisable_codec : Factory → Codec

  pub data Factory : Type 0 where
    of_class : ℕ → Schema → Factory
    picked_by : ℕ → ℕ → Option ℕ → Variants → Factory

  pub data Schema : Type 0 where
    no_fields : Schema
    field : ℕ → Codec → Schema → Schema

  pub data Variants : Type 0 where
    no_variants : Variants
    variant : ℕ → ℕ → Schema → Variants → Variants

-- What codecs decode to, over a type of datetimes. An object has its class, and for each codec of the
-- class the key, the codec and the attribute.
mutual
  pub data Value (Time : Type 0) : Type 0 where
    plain : Primitive → Value Time
    member_of : ℕ → Option ℕ → Value Time
    moment : Time → Value Time
    container : ContainerType → Values Time → Value Time
    object : ℕ → Members Time → Value Time

  pub data Values (Time : Type 0) : Type 0 where
    no_values : Values Time
    value : Value Time → Values Time → Values Time

  pub data Members (Time : Type 0) : Type 0 where
    no_members : Members Time
    member : ℕ → Codec → Value Time → Members Time → Members Time
