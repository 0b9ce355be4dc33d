-- ===== src/Codecs/Conforms.antt =====
-- Which Python values a codec of Common/codecs.py is for.
use cpy_q.Prelude.{ℕ, ◌≡◌, Bool, true, Option, some, List, any}
use cpy_q.Codecs.Trees.{
  Primitive, null, PrimitiveType, ContainerType, Codec, enum_codec, primitive_codec, datetime_codec,
  container_codec, serialisable_codec, Factory, of_class, picked_by, Schema, no_fields, field,
  Variants, variant, plain, member_of, moment, container, object, Values, no_values, value, Members,
  no_members, member,
}
use cpy_q.Codecs.{Clock, Object, is_valid, same_member, collect, get_member}

-- The key is of none of the fields.
abbrev pub IsFresh : ℕ → Schema → Type 0
IsFresh key no_fields = Unit
IsFresh key (field k c rest) = (key ≡ k → ⊥) × IsFresh key rest

-- The variant that a tag picks: the first of its name.
pub data Picks (tag : ℕ) : ℕ → Schema → Variants → Type 0 where
  here :
      {cls : ℕ} {schema : Schema} {rest : Variants}
      → Picks tag cls schema (variant tag cls schema rest)
  there :
      {cls t c : ℕ} {schema s : Schema} {rest : Variants}
      → (tag ≡ t → ⊥)
      → Picks tag cls schema rest
      → Picks tag cls schema (variant t c s rest)

module _ (clock : Clock) where
  -- An aware datetime that `strptime` reads back from what `strftime` writes.
  abbrev pub IsWritten : clock.Time → Type 0
  IsWritten t = (clock.is_aware t ≡ true) × (clock.strptime (clock.strftime t) ≡ some t)

  mutual
    -- The value is one that the codec is for.
    pub data Conforms : Codec → Object clock → Type 0 where
      a_member :
          (cls : ℕ) (members : List (Option ℕ)) (m : Option ℕ)
          → any (same_member m) members ≡ true
          → Conforms (enum_codec cls members) (member_of cls m)
      a_primitive :
          (types : List PrimitiveType) (optional : Bool) (p : Primitive)
          → is_valid types optional p ≡ true
          → Conforms (primitive_codec types optional) (plain p)
      a_moment :
          (optional : Bool) (t : clock.Time)
          → IsWritten t
          → Conforms (datetime_codec optional) (moment t)
      no_moment : Conforms (datetime_codec true) (plain null)
      a_container :
          (kind : ContainerType) (c : Codec) (vs : Values clock.Time)
          → AllConform c vs
          → collect kind vs ≡ vs
          → Conforms (container_codec kind c) (container kind vs)
      an_object :
          (factory : Factory) (v : Object clock)
          → IsMadeBy factory v
          → Conforms (serialisable_codec factory) v

    pub data AllConform : Codec → Values clock.Time → Type 0 where
      none_left : (c : Codec) → AllConform c no_values
      one_more :
          (c : Codec) (v : Object clock) (rest : Values clock.Time)
          → Conforms c v
          → AllConform c rest
          → AllConform c (value v rest)

    -- The object is one that the factory makes.
    pub data IsMadeBy : Factory → Object clock → Type 0 where
      by_class :
          (cls : ℕ) (schema : Schema) (ms : Members clock.Time)
          → Fits schema ms
          → IsMadeBy (of_class cls schema) (object cls ms)
      empty :
          (key enum cls : ℕ) (classes : Variants)
          → IsMadeBy (picked_by key enum (some cls) classes) (object cls no_members)
      by_tag :
          (key enum : ℕ) (empty : Option ℕ) (classes : Variants) (tag cls : ℕ) (schema : Schema)
          (ms : Members clock.Time)
          → Picks tag cls schema classes
          → get_member key ms ≡ some (member_of enum (some tag))
          → Fits schema ms
          → IsMadeBy (picked_by key enum empty classes) (object cls ms)

    -- The object has exactly the attributes of its class, each of them one that its codec is for.
    pub data Fits : Schema → Members clock.Time → Type 0 where
      no_more : Fits no_fields no_members
      next :
          (key : ℕ) (c : Codec) (rest : Schema) (v : Object clock) (ms : Members clock.Time)
          → IsFresh key rest
          → Conforms c v
          → Fits rest ms
          → Fits (field key c rest) (member key c v ms)
