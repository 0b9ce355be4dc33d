-- ===== src/Codecs/Typing.antt =====
-- What a codec of Common/codecs.py decodes is a value that it is for.
use cpy_q.Prelude.{ℕ, ◌≡◌, sym, subst, inl, inr, true, none, some, arith, ◌==◌, Bool-cases}
use cpy_q.Prelude.Raises.{returns, ◌>>=◌, >>=_returns}
use cpy_q.Codecs.Trees.{
  text, Json, primitive, array, dict, Entries, Codec, enum_codec, primitive_codec, datetime_codec,
  container_codec, serialisable_codec, Factory, of_class, picked_by, Schema, no_fields, field,
  Variants, no_variants, variant, member_of, container, object, Members, no_members, member,
}
use cpy_q.Codecs.{
  Clock, Object, lookup_entry, get_member, collect, attribute, decode_items, decode, make,
  make_variant, set_attributes, encode,
}
use cpy_q.Codecs.Conforms.{
  Picks, here, there, IsWritten, Conforms, a_container, an_object, IsMadeBy, by_class, empty,
  by_tag, Fits, no_more, next,
}
use cpy_q.Codecs.Proper.{
  is_proper, makes_proper, picks_proper, has_proper, absent-IsFresh, proper_field, proper_variant,
}
use cpy_q.Codecs.Sets.{collect-collect, collect-AllConform}
use cpy_q.Codecs.RoundTrip.{decode-encode}
use cpy_q.Codecs.Decoded.{
  decode_enum-Conforms, decode_primitive-Conforms, decode_datetime-Conforms,
  decode_items-AllConform, set_attributes_tag, make_picked, attribute_returns,
}

module _ (clock : Clock)
    (written : (s : ℕ) (t : clock.Time) → clock.strptime s ≡ some t → IsWritten clock t) where
  -- An object of the class that the tag picks, with that tag under the key.
  abbrev ByTag : ℕ → ℕ → ℕ → Variants → Object clock → Type 0
  ByTag key enum tag classes v =
      (cls : ℕ) × (schema : Schema) × (ms : Members clock.Time) × Picks tag cls schema classes
      × (get_member key ms ≡ some (member_of enum (some tag)))
      × Fits clock schema ms
      × (v ≡ object cls ms)

  mutual
    unfolding decode make_variant set_attributes is_proper

    decodes_value :
        (c : Codec)
        → is_proper c ≡ true
        → (j : Json) (v : Object clock) → decode clock c j ≡ returns v
        → Conforms clock c v
    decodes_value (enum_codec cls members) p j v h =
        decode_enum-Conforms clock written cls members j v h
    decodes_value (primitive_codec types optional) p j v h =
        decode_primitive-Conforms clock written types optional j v h
    decodes_value (datetime_codec optional) p j v h =
        decode_datetime-Conforms clock written optional j v h
    decodes_value (container_codec kind c) p (primitive q) v h = cc
    decodes_value (container_codec kind c) p (dict es) v h = cc
    decodes_value (container_codec kind c) p (array js) v h =
        let (vs, e, r) =
          >>=_returns (decode_items (decode clock c) js)
            (λ vs. returns (container kind (collect kind vs))) v h in
        let made : container kind (collect kind vs) ≡ v = ground (arith, r) in
        subst (Conforms clock (container_codec kind c)) made (
          a_container kind c (collect kind vs)
            (collect-AllConform clock c kind vs
              (decode_items-AllConform clock written c (decodes_value c p) js vs e))
            (collect-collect kind vs))
    decodes_value (serialisable_codec factory) p j v h =
        an_object factory v (makes_object factory p j v h)

    makes_object :
        (factory : Factory)
        → makes_proper factory ≡ true
        → (j : Json) (v : Object clock) → make clock factory j ≡ returns v
        → IsMadeBy clock factory v
    makes_object (of_class cls schema) p (primitive q) v h = cc
    makes_object (of_class cls schema) p (array js) v h = cc
    makes_object (of_class cls schema) p (dict es) v h =
        let (ms, e, r) =
          >>=_returns (set_attributes clock schema es) (λ ms. returns (object cls ms)) v h in
        let made : object cls ms ≡ v = ground (arith, r) in
        subst (IsMadeBy clock (of_class cls schema)) made
          (by_class cls schema ms (sets_fields schema p es ms e))
    makes_object (picked_by key enum none classes) p (primitive q) v h = cc
    makes_object (picked_by key enum (some cls) classes) p (primitive q) v h = cc
    makes_object (picked_by key enum none classes) p (array js) v h = cc
    makes_object (picked_by key enum (some cls) classes) p (array js) v h = cc
    makes_object (picked_by key enum of_empty classes) p (dict es) v h =
        elim (make_picked clock written key enum of_empty classes es v h) [
          | inl (cls, is_empty, made) ↦
              subst (λ o. IsMadeBy clock (picked_by key enum o classes) v) (sym is_empty)
                (subst (IsMadeBy clock (picked_by key enum (some cls) classes)) (sym made)
                  (empty key enum cls classes))
          | inr (tag, l, h') ↦
              let (cls, schema, ms, picked, tagged, fits, made) =
                makes_variant key enum tag classes p es l v h' in
              subst (IsMadeBy clock (picked_by key enum of_empty classes)) (sym made)
                (by_tag key enum of_empty classes tag cls schema ms picked tagged fits)
        ]

    makes_variant :
        (key enum tag : ℕ) (classes : Variants)
        → picks_proper key enum classes ≡ true
        → (es : Entries) → lookup_entry key es ≡ some (primitive (text tag))
        → (v : Object clock) → make_variant clock tag classes es ≡ returns v
        → ByTag key enum tag classes v
    makes_variant key enum tag no_variants p es l v h = cc
    makes_variant key enum tag (variant t cls schema rest) p es l v h =
        let (keyed, p_first, p_rest) = proper_variant key enum t cls schema rest p in
        elim (Bool-cases (tag == t)) [
          | inl own ↦
              let (ms, e, r) =
                >>=_returns (set_attributes clock schema es) (λ ms. returns (object cls ms)) v
                  (ground (arith, own, h)) in
              let picked : Picks tag cls schema (variant t cls schema rest) =
                subst (λ t. Picks tag cls schema (variant t cls schema rest)) (ground (arith, own))
                  here in
              (
                cls,
                schema,
                ms,
                picked,
                set_attributes_tag clock written schema es ms key enum tag keyed l e,
                sets_fields schema p_first es ms e,
                ground (arith, r),
              )
          | inr other ↦
              let (cls', schema', ms, picked, tagged, fits, made) =
                makes_variant key enum tag rest p_rest es l v (ground (arith, other, h)) in
              (
                cls',
                schema',
                ms,
                there {cls = cls'} {schema = schema'} (ground (arith, other)) picked,
                tagged,
                fits,
                made,
              )
        ]

    sets_fields :
        (schema : Schema)
        → has_proper schema ≡ true
        → (es : Entries) (ms : Members clock.Time) → set_attributes clock schema es ≡ returns ms
        → Fits clock schema ms
    sets_fields no_fields p es ms h =
        let made : no_members ≡ ms = ground (arith, h) in subst (Fits clock no_fields) made no_more
    sets_fields (field k c rest) p es ms h =
        let (v, e, h') =
          >>=_returns (attribute (lookup_entry k es) (decode clock c))
            (λ v. set_attributes clock rest es >>= λ ms'. returns (member k c v ms')) ms h in
        let (ms', e', r) =
          >>=_returns (set_attributes clock rest es) (λ ms'. returns (member k c v ms')) ms h' in
        let (absent, p_first, p_rest) = proper_field k c rest p in
        let (j, l, d) = attribute_returns (lookup_entry k es) (decode clock c) v e in
        let made : member k c v ms' ≡ ms = ground (arith, r) in
        subst (Fits clock (field k c rest)) made (
          next k c rest v ms' (absent-IsFresh k rest absent) (decodes_value c p_first j v d)
            (sets_fields rest p_rest es ms' e'))

  pub set_attributes-Fits :
      (schema : Schema) (es : Entries) (ms : Members clock.Time)
      → has_proper schema ≡ true
      → set_attributes clock schema es ≡ returns ms
      → Fits clock schema ms
  set_attributes-Fits schema es ms p h = sets_fields schema p es ms h

  -- What a codec decodes is a value that it is for, where the keys of the classes in it are distinct,
  -- each class that is picked by a key has that key, and what `strptime` returns is aware and is
  -- written and read back.
  pub decode-Conforms :
      (c : Codec) (j : Json) (v : Object clock)
      → is_proper c ≡ true
      → decode clock c j ≡ returns v
      → Conforms clock c v
  decode-Conforms c j v p h = decodes_value c p j v h

  -- What was received can be sent on: where `decode-Conforms` holds, what a codec decodes encodes without an
  -- exception, and that JSON, which may have fewer keys and items than the first, decodes to the same.
  pub decode-encode-decode :
      (c : Codec) (j : Json) (v : Object clock)
      → is_proper c ≡ true
      → decode clock c j ≡ returns v
      → (k : Json) × (encode clock c v ≡ returns k) × (decode clock c k ≡ returns v)
  decode-encode-decode c j v p h = decode-encode clock c v (decode-Conforms c j v p h)
