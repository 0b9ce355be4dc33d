-- ===== src/Codecs/Decoded.antt =====
-- What the parts of a decoder of Common/codecs.py return: the steps towards Codecs/Typing.
use cpy_q.Prelude.{
  ℕ, ◌≡◌, refl, sym, ap, subst, ◌∙◌, ◌⊎◌, inl, inr, Bool, true, false, Option, none, some, List,
  any, arith, ◌==◌, Bool-cases, Option-cases,
}
use cpy_q.Prelude.Raises.{Raises, returns, ◌>>=◌, >>=_returns}
use cpy_q.Codecs.Trees.{
  null, boolean, integer, real, text, PrimitiveType, Json, primitive, array, dict, Items, no_items,
  item, Entries, no_entries, entry, Codec, enum_codec, primitive_codec, datetime_codec,
  container_codec, serialisable_codec, picked_by, Schema, no_fields, field, Variants, plain,
  member_of, moment, object, Values, no_values, value, Members, no_members, member,
}
use cpy_q.Codecs.{
  CodecError, Clock, Object, get_field, is_valid, validate, same_member, lookup_entry, get_member,
  parsed, tag_of, attribute, decode_enum, decode_items, decode_datetime, decode_leaf, decode, make,
  make_variant, set_attributes,
}
use cpy_q.Codecs.Conforms.{
  IsWritten, Conforms, a_member, a_primitive, a_moment, no_moment, AllConform, none_left, one_more,
}
use cpy_q.Codecs.Proper.{is_enum}

-- A codec of an attribute that returns found the key.
pub attribute_returns :
    {A : Type 0} (o : Option Json) (f : Json → Raises CodecError A) (a : A)
    → attribute o f ≡ returns a
    → (j : Json) × (o ≡ some j) × (f j ≡ returns a)
attribute_returns none f a h = cc
attribute_returns (some j) f a h = (j, refl, h)

pub tag_of_text :
    (o : Option Json) (tag : ℕ) → tag_of o ≡ returns tag → o ≡ some (primitive (text tag))
tag_of_text none tag h = cc
tag_of_text (some (primitive (text t))) tag h = ground (arith, h)
tag_of_text (some (primitive null)) tag h = cc
tag_of_text (some (primitive (boolean b))) tag h = cc
tag_of_text (some (primitive (integer n))) tag h = cc
tag_of_text (some (primitive (real n))) tag h = cc
tag_of_text (some (array js)) tag h = cc
tag_of_text (some (dict es)) tag h = cc

pub decode_enum_member :
    (cls : ℕ) (members : List (Option ℕ)) (j : Json) (m : Option ℕ)
    → decode_enum cls members j ≡ returns m
    → any (same_member m) members ≡ true
unfolding decode_enum
decode_enum_member cls members (primitive null) m h =
    elim (Bool-cases (any (same_member none) members)) [
      | inl listed ↦ ground (arith, listed, h)
      | inr unknown ↦ ground (arith, unknown, h)
    ]
decode_enum_member cls members (primitive (text t)) m h =
    elim (Bool-cases (any (same_member (some t)) members)) [
      | inl listed ↦ ground (arith, listed, h)
      | inr unknown ↦ ground (arith, unknown, h)
    ]
decode_enum_member cls members (primitive (boolean b)) m h = cc
decode_enum_member cls members (primitive (integer n)) m h = cc
decode_enum_member cls members (primitive (real n)) m h = cc
decode_enum_member cls members (array js) m h = cc
decode_enum_member cls members (dict es) m h = cc

pub decode_enum_text :
    (cls : ℕ) (members : List (Option ℕ)) (tag : ℕ) (m : Option ℕ)
    → decode_enum cls members (primitive (text tag)) ≡ returns m
    → m ≡ some tag
unfolding decode_enum
decode_enum_text cls members tag m h = elim (Bool-cases (any (same_member (some tag)) members)) [
  | inl listed ↦ ground (arith, listed, h)
  | inr unknown ↦ ground (arith, unknown, h)
]

module _ (clock : Clock)
    (written : (s : ℕ) (t : clock.Time) → clock.strptime s ≡ some t → IsWritten clock t) where
  pub parsed-IsWritten :
      (s : ℕ) (t : clock.Time) → parsed (clock.strptime s) ≡ returns t → IsWritten clock t
  parsed-IsWritten s t h = elim (Option-cases (clock.strptime s)) [
    | inl e ↦ ground (arith, e, h)
    | inr (u, e) ↦ written s t (e ∙ ground (arith, e, h))
  ]

  pub decode_enum-Conforms :
      (cls : ℕ) (members : List (Option ℕ)) (j : Json) (v : Object clock)
      → decode_leaf clock (enum_codec cls members) j ≡ returns v
      → Conforms clock (enum_codec cls members) v
  unfolding decode_leaf
  decode_enum-Conforms cls members j v h =
      let (m, e, r) =
        >>=_returns (decode_enum cls members j) (λ m. returns (member_of cls m)) v h in
      let made : member_of cls m ≡ v = ground (arith, r) in
      subst (Conforms clock (enum_codec cls members)) made
        (a_member cls members m (decode_enum_member cls members j m e))

  pub decode_primitive-Conforms :
      (types : List PrimitiveType) (optional : Bool) (j : Json) (v : Object clock)
      → decode_leaf clock (primitive_codec types optional) j ≡ returns v
      → Conforms clock (primitive_codec types optional) v
  unfolding decode_leaf validate
  decode_primitive-Conforms types optional (primitive p) v h =
      elim (Bool-cases (is_valid types optional p)) [
        | inl valid ↦
            let made : plain p ≡ v = ground (arith, valid, h) in
            subst (Conforms clock (primitive_codec types optional)) made
              (a_primitive types optional p valid)
        | inr invalid ↦ ground (arith, invalid, h)
      ]
  decode_primitive-Conforms types optional (array js) v h = cc
  decode_primitive-Conforms types optional (dict es) v h = cc

  pub decode_text-Conforms :
      (optional : Bool) (s : ℕ) (v : Object clock)
      → (parsed (clock.strptime s) >>= λ t. returns (moment t)) ≡ returns v
      → Conforms clock (datetime_codec optional) v
  decode_text-Conforms optional s v h =
      let (t, e, r) = >>=_returns (parsed (clock.strptime s)) (λ t. returns (moment t)) v h in
      let made : moment t ≡ v = ground (arith, r) in
      subst (Conforms clock (datetime_codec optional)) made
        (a_moment optional t (parsed-IsWritten s t e))

  pub decode_datetime-Conforms :
      (optional : Bool) (j : Json) (v : Object clock)
      → decode_leaf clock (datetime_codec optional) j ≡ returns v
      → Conforms clock (datetime_codec optional) v
  unfolding decode_leaf decode_datetime
  decode_datetime-Conforms true (primitive null) v h =
      let made : plain null ≡ v = ground (arith, h) in
      subst (Conforms clock (datetime_codec true)) made no_moment
  decode_datetime-Conforms false (primitive null) v h = cc
  decode_datetime-Conforms true (primitive (text s)) v h = decode_text-Conforms true s v h
  decode_datetime-Conforms false (primitive (text s)) v h = decode_text-Conforms false s v h
  decode_datetime-Conforms true (primitive (boolean b)) v h = cc
  decode_datetime-Conforms false (primitive (boolean b)) v h = cc
  decode_datetime-Conforms true (primitive (integer n)) v h = cc
  decode_datetime-Conforms false (primitive (integer n)) v h = cc
  decode_datetime-Conforms true (primitive (real n)) v h = cc
  decode_datetime-Conforms false (primitive (real n)) v h = cc
  decode_datetime-Conforms true (array js) v h = cc
  decode_datetime-Conforms false (array js) v h = cc
  decode_datetime-Conforms true (dict es) v h = cc
  decode_datetime-Conforms false (dict es) v h = cc

  pub decode_items-AllConform :
      (c : Codec)
      → ((j : Json) (v : Object clock) → decode clock c j ≡ returns v → Conforms clock c v)
      → (js : Items) (vs : Values clock.Time) → decode_items (decode clock c) js ≡ returns vs
      → AllConform clock c vs
  unfolding decode_items
  decode_items-AllConform c each no_items vs h =
      let made : no_values ≡ vs = ground (arith, h) in subst (AllConform clock c) made (none_left c)
  decode_items-AllConform c each (item j js) vs h =
      let (v, e, k) =
        >>=_returns (decode clock c j)
          (λ v. decode_items (decode clock c) js >>= λ ws. returns (value v ws)) vs h in
      let (ws, es, r) =
        >>=_returns (decode_items (decode clock c) js) (λ ws. returns (value v ws)) vs k in
      let made : value v ws ≡ vs = ground (arith, r) in
      subst (AllConform clock c) made
        (one_more c v ws (each j v e) (decode_items-AllConform c each js ws es))

  pub decode_tag :
      (c : Codec) (enum tag : ℕ) (v : Object clock)
      → is_enum enum (some c) ≡ true
      → decode clock c (primitive (text tag)) ≡ returns v
      → v ≡ member_of enum (some tag)
  unfolding decode decode_leaf
  decode_tag (enum_codec cls members) enum tag v known h =
      let (m, e, r) =
        >>=_returns (decode_enum cls members (primitive (text tag)))
          (λ m. returns (member_of cls m)) v h in
      ground (arith, r, known, decode_enum_text cls members tag m e)
  decode_tag (primitive_codec types optional) enum tag v known h = cc
  decode_tag (datetime_codec optional) enum tag v known h = cc
  decode_tag (container_codec kind c) enum tag v known h = cc
  decode_tag (serialisable_codec factory) enum tag v known h = cc

  -- The JSON's text under the key, where its codec is of the enumeration, is the attribute.
  pub set_attributes_tag :
      (schema : Schema) (es : Entries) (ms : Members clock.Time) (key enum tag : ℕ)
      → is_enum enum (get_field key schema) ≡ true
      → lookup_entry key es ≡ some (primitive (text tag))
      → set_attributes clock schema es ≡ returns ms
      → get_member key ms ≡ some (member_of enum (some tag))
  unfolding set_attributes get_field get_member decode decode_leaf
  set_attributes_tag no_fields es ms key enum tag known l h = cc
  set_attributes_tag (field k c rest) es ms key enum tag known l h =
      let (v, e, h') =
        >>=_returns (attribute (lookup_entry k es) (decode clock c))
          (λ v. set_attributes clock rest es >>= λ ms'. returns (member k c v ms')) ms h in
      let (ms', e', r) =
        >>=_returns (set_attributes clock rest es) (λ ms'. returns (member k c v ms')) ms h' in
      let made : member k c v ms' ≡ ms = ground (arith, r) in
      elim (Bool-cases (key == k)) [
        | inl own ↦
            let keyed : key ≡ k = ground (arith, own) in
            let tagged : decode clock c (primitive (text tag)) ≡ returns v =
              sym (
                ap (λ o. attribute o (decode clock c))
                  (ap (λ x. lookup_entry x es) (sym keyed) ∙ l))
              ∙ e in
            let is_tag = decode_tag c enum tag v (ground (arith, own, known)) tagged in
            subst (λ x. get_member key x ≡ some (member_of enum (some tag))) made
              (ground (arith, own, is_tag))
        | inr other ↦
            let later =
              set_attributes_tag rest es ms' key enum tag (ground (arith, other, known)) l e' in
            subst (λ x. get_member key x ≡ some (member_of enum (some tag))) made
              (ground (arith, other, later))
      ]

  pub make_picked :
      (key enum : ℕ) (of_empty : Option ℕ) (classes : Variants) (es : Entries) (v : Object clock)
      → make clock (picked_by key enum of_empty classes) (dict es) ≡ returns v
      → ((cls : ℕ) × (of_empty ≡ some cls) × (v ≡ object cls no_members))
        ⊎ ((tag : ℕ) × (lookup_entry key es ≡ some (primitive (text tag)))
            × (make_variant clock tag classes es ≡ returns v))
  unfolding make
  make_picked key enum (some cls) classes no_entries v h = inl (cls, refl, ground (arith, h))
  make_picked key enum none classes no_entries v h =
      let (tag, e, r) =
        >>=_returns (tag_of (lookup_entry key no_entries))
          (λ t. make_variant clock t classes no_entries) v h in
      inr (tag, tag_of_text (lookup_entry key no_entries) tag e, r)
  make_picked key enum none classes (entry k j rest) v h =
      let (tag, e, r) =
        >>=_returns (tag_of (lookup_entry key (entry k j rest)))
          (λ t. make_variant clock t classes (entry k j rest)) v h in
      inr (tag, tag_of_text (lookup_entry key (entry k j rest)) tag e, r)
  make_picked key enum (some cls) classes (entry k j rest) v h =
      let (tag, e, r) =
        >>=_returns (tag_of (lookup_entry key (entry k j rest)))
          (λ t. make_variant clock t classes (entry k j rest)) v h in
      inr (tag, tag_of_text (lookup_entry key (entry k j rest)) tag e, r)
