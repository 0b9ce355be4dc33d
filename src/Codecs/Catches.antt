-- ===== src/Codecs/Catches.antt =====
-- Which exceptions the decoders of Common/codecs.py raise.
use cpy_q.Prelude.{
  ℕ, ◌≡◌, refl, Bool, true, false, Option, none, some, List, any, ◌==◌, if◌then◌else◌,
}
use cpy_q.Prelude.Raises.{Raises, returns, raises, ◌>>=◌}
use cpy_q.Codecs.Trees.{
  null, boolean, integer, real, text, Json, primitive, array, dict, Items, no_items, item, Entries,
  no_entries, entry, Codec, enum_codec, primitive_codec, datetime_codec, container_codec,
  serialisable_codec, Factory, of_class, picked_by, Schema, no_fields, field, Variants, no_variants,
  variant, Value, plain, member_of, moment, container, object, value, member,
}
use cpy_q.Codecs.{
  CodecError, type_error, value_error, key_error, Clock, is_valid, validate, same_member,
  lookup_entry, collect, parsed, tag_of, attribute, decode_enum, decode_items, decode_datetime,
  decode_leaf, decode, make, make_variant, set_attributes,
}

abbrev pub is_caught : CodecError → Bool
is_caught type_error = true
is_caught value_error = true
is_caught key_error = true
is_caught _ = false

-- It returns, or raises one of the three.
abbrev pub Catches : {A : Type 0} → Raises CodecError A → Type 0
Catches (returns a) = Unit
Catches (raises error) = is_caught error ≡ true

pub bind-Catches :
    {A B : Type 0} (m : Raises CodecError A) (f : A → Raises CodecError B)
    → Catches m
    → ((a : A) → Catches (f a))
    → Catches (m >>= f)
bind-Catches (returns a) f h k = k a
bind-Catches (raises error) f h k = h

pub if-Catches :
    {A : Type 0} (b : Bool) (m n : Raises CodecError A)
    → Catches m
    → Catches n
    → Catches (if b then m else n)
if-Catches true m n h k = h
if-Catches false m n h k = k

pub attribute-Catches :
    {A : Type 0} (o : Option Json) (f : Json → Raises CodecError A)
    → ((j : Json) → Catches (f j))
    → Catches (attribute o f)
attribute-Catches none f h = refl
attribute-Catches (some j) f h = h j

pub tag_of-Catches : (o : Option Json) → Catches (tag_of o)
tag_of-Catches none = refl
tag_of-Catches (some (primitive (text t))) = tt
tag_of-Catches (some (primitive null)) = refl
tag_of-Catches (some (primitive (boolean b))) = refl
tag_of-Catches (some (primitive (integer n))) = refl
tag_of-Catches (some (primitive (real n))) = refl
tag_of-Catches (some (array js)) = refl
tag_of-Catches (some (dict es)) = refl

pub decode_enum-Catches :
    (cls : ℕ) (members : List (Option ℕ)) (j : Json) → Catches (decode_enum cls members j)
unfolding decode_enum
decode_enum-Catches cls members (primitive null) =
    if-Catches (any (same_member none) members) (returns none) (raises value_error) tt refl
decode_enum-Catches cls members (primitive (text t)) =
    if-Catches (any (same_member (some t)) members) (returns (some t)) (raises value_error) tt refl
decode_enum-Catches cls members (primitive (boolean b)) = refl
decode_enum-Catches cls members (primitive (integer n)) = refl
decode_enum-Catches cls members (primitive (real n)) = refl
decode_enum-Catches cls members (array js) = refl
decode_enum-Catches cls members (dict es) = refl

pub decode_items-Catches :
    {Time : Type 0} (f : Json → Raises CodecError (Value Time)) (js : Items)
    → ((j : Json) → Catches (f j))
    → Catches (decode_items f js)
unfolding decode_items
decode_items-Catches f no_items h = tt
decode_items-Catches f (item j js) h =
    bind-Catches (f j) (λ v. decode_items f js >>= λ vs. returns (value v vs)) (h j)
      (λ v.
        bind-Catches (decode_items f js) (λ vs. returns (value v vs)) (decode_items-Catches f js h)
          (λ vs. tt))

module _ (clock : Clock) where
  pub parsed-Catches : (o : Option clock.Time) → Catches (parsed o >>= λ t. returns (moment t))
  parsed-Catches none = refl
  parsed-Catches (some t) = tt

  pub primitive-Catches :
      (types : _) (optional : Bool) (j : Json)
      → Catches (decode_leaf clock (primitive_codec types optional) j)
  unfolding decode_leaf validate
  primitive-Catches types optional (primitive p) =
      bind-Catches (if is_valid types optional p then returns p else raises type_error)
        (λ q. returns (plain q))
        (if-Catches (is_valid types optional p) (returns p) (raises type_error) tt refl) (λ q. tt)
  primitive-Catches types optional (array js) = refl
  primitive-Catches types optional (dict es) = refl

  pub datetime-Catches :
      (optional : Bool) (j : Json) → Catches (decode_leaf clock (datetime_codec optional) j)
  unfolding decode_leaf decode_datetime
  datetime-Catches true (primitive null) = tt
  datetime-Catches false (primitive null) = refl
  datetime-Catches true (primitive (text s)) = parsed-Catches (clock.strptime s)
  datetime-Catches false (primitive (text s)) = parsed-Catches (clock.strptime s)
  datetime-Catches true (primitive (boolean b)) = refl
  datetime-Catches false (primitive (boolean b)) = refl
  datetime-Catches true (primitive (integer n)) = refl
  datetime-Catches false (primitive (integer n)) = refl
  datetime-Catches true (primitive (real n)) = refl
  datetime-Catches false (primitive (real n)) = refl
  datetime-Catches true (array js) = refl
  datetime-Catches false (array js) = refl
  datetime-Catches true (dict es) = refl
  datetime-Catches false (dict es) = refl

  pub pick-Catches :
      (key enum : ℕ) (of_empty : Option ℕ) (classes : Variants) (j : Json)
      → ((tag : ℕ) (es : Entries) → Catches (make_variant clock tag classes es))
      → Catches (make clock (picked_by key enum of_empty classes) j)
  unfolding make
  pick-Catches key enum none classes (primitive p) h = refl
  pick-Catches key enum (some cls) classes (primitive p) h = refl
  pick-Catches key enum none classes (array js) h = refl
  pick-Catches key enum (some cls) classes (array js) h = refl
  pick-Catches key enum (some cls) classes (dict no_entries) h = tt
  pick-Catches key enum none classes (dict no_entries) h =
      bind-Catches (tag_of (lookup_entry key no_entries))
        (λ tag. make_variant clock tag classes no_entries)
        (tag_of-Catches (lookup_entry key no_entries)) (λ tag. h tag no_entries)
  pick-Catches key enum none classes (dict (entry k j rest)) h =
      bind-Catches (tag_of (lookup_entry key (entry k j rest)))
        (λ tag. make_variant clock tag classes (entry k j rest))
        (tag_of-Catches (lookup_entry key (entry k j rest))) (λ tag. h tag (entry k j rest))
  pick-Catches key enum (some cls) classes (dict (entry k j rest)) h =
      bind-Catches (tag_of (lookup_entry key (entry k j rest)))
        (λ tag. make_variant clock tag classes (entry k j rest))
        (tag_of-Catches (lookup_entry key (entry k j rest))) (λ tag. h tag (entry k j rest))

  mutual
    unfolding decode make make_variant set_attributes decode_leaf

    pub decode-Catches : (c : Codec) (j : Json) → Catches (decode clock c j)
    decode-Catches (enum_codec cls members) j =
        bind-Catches (decode_enum cls members j) (λ m. returns (member_of cls m))
          (decode_enum-Catches cls members j) (λ m. tt)
    decode-Catches (primitive_codec types optional) j = primitive-Catches types optional j
    decode-Catches (datetime_codec optional) j = datetime-Catches optional j
    decode-Catches (container_codec kind c) (primitive p) = refl
    decode-Catches (container_codec kind c) (dict es) = refl
    decode-Catches (container_codec kind c) (array js) =
        bind-Catches (decode_items (decode clock c) js)
          (λ vs. returns (container kind (collect kind vs)))
          (decode_items-Catches (decode clock c) js (decode-Catches c)) (λ vs. tt)
    decode-Catches (serialisable_codec factory) j = make-Catches factory j

    pub make-Catches : (factory : Factory) (j : Json) → Catches (make clock factory j)
    make-Catches (of_class cls schema) (primitive p) = refl
    make-Catches (of_class cls schema) (array js) = refl
    make-Catches (of_class cls schema) (dict es) =
        bind-Catches (set_attributes clock schema es) (λ ms. returns (object cls ms))
          (set_attributes-Catches schema es) (λ ms. tt)
    make-Catches (picked_by key enum of_empty classes) j =
        pick-Catches key enum of_empty classes j (λ tag es. make_variant-Catches tag classes es)

    make_variant-Catches :
        (tag : ℕ) (classes : Variants) (es : Entries) → Catches (make_variant clock tag classes es)
    make_variant-Catches tag no_variants es = refl
    make_variant-Catches tag (variant t cls schema rest) es =
        if-Catches (tag == t) (set_attributes clock schema es >>= λ ms. returns (object cls ms))
          (make_variant clock tag rest es)
          (bind-Catches (set_attributes clock schema es) (λ ms. returns (object cls ms))
            (set_attributes-Catches schema es) (λ ms. tt))
          (make_variant-Catches tag rest es)

    set_attributes-Catches :
        (schema : Schema) (es : Entries) → Catches (set_attributes clock schema es)
    set_attributes-Catches no_fields es = tt
    set_attributes-Catches (field k c rest) es =
        bind-Catches (attribute (lookup_entry k es) (decode clock c))
          (λ v. set_attributes clock rest es >>= λ ms. returns (member k c v ms))
          (attribute-Catches (lookup_entry k es) (decode clock c) (decode-Catches c))
          (λ v.
            bind-Catches (set_attributes clock rest es) (λ ms. returns (member k c v ms))
              (set_attributes-Catches rest es) (λ ms. tt))
