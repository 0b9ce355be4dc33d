-- ===== src/Codecs/Returned.antt =====
-- Encoding and decoding the parts of a value with Common/codecs.py: the steps towards Codecs/RoundTrip.
use cpy_q.Prelude.{
  ℕ, ◌≡◌, refl, ap, subst, ◌∙◌, inl, inr, Bool, true, false, Option, none, some, List, any, arith,
  ◌==◌, Bool-cases,
}
use cpy_q.Prelude.Raises.{returns, ◌>>=◌}
use cpy_q.Codecs.Trees.{
  text, ContainerType, list_type, tuple_type, set_type, frozenset_type, Json, primitive, array,
  dict, Items, Entries, no_entries, entry, Codec, datetime_codec, container_codec,
  serialisable_codec, of_class, picked_by, Schema, field, Variants, member_of, moment, container,
  object, Values, Members, member,
}
use cpy_q.Codecs.{
  Clock, Object, get_field, same_type, enum_value, same_member, lookup_entry, get_member, collect,
  decode_enum, decode_items, decode_datetime, encode_datetime, decode_leaf, decode, make,
  make_variant, set_attributes, encode, encode_items, json,
}
use cpy_q.Codecs.Conforms.{IsFresh, Picks, here, there, IsWritten, Conforms, a_member, an_object}

pub same_type_refl : (kind : ContainerType) → same_type kind kind ≡ true
same_type_refl list_type = refl
same_type_refl tuple_type = refl
same_type_refl set_type = refl
same_type_refl frozenset_type = refl

pub decode_enum-enum_value :
    (cls : ℕ) (members : List (Option ℕ)) (m : Option ℕ)
    → any (same_member m) members ≡ true
    → decode_enum cls members (primitive (enum_value m)) ≡ returns m
unfolding decode_enum
decode_enum-enum_value cls members none h = rw h
decode_enum-enum_value cls members (some t) h = rw h

module _ (clock : Clock) where
  -- A value encodes, and its JSON decodes to it.
  abbrev pub Returns : Codec → Object clock → Type 0
  Returns c v = (j : Json) × (encode clock c v ≡ returns j) × (decode clock c j ≡ returns v)

  abbrev pub ReturnsAll : Codec → Values clock.Time → Type 0
  ReturnsAll c vs =
      (js : Items) × (encode_items clock c vs ≡ returns js)
      × (decode_items (decode clock c) js ≡ returns vs)

  -- The attributes of an object encode, each under its key, and decode from any JSON that has them.
  pub record ReturnsFields (schema : Schema) (ms : Members clock.Time) : Type 0 where
    pub es : Entries
    pub encodes : json clock ms ≡ returns es
    pub fresh : (k : ℕ) → IsFresh k schema → lookup_entry k es ≡ none
    pub found :
        (k : ℕ) (v : Object clock)
        → get_member k ms ≡ some v
        → (c : Codec) × (j : Json) × Conforms clock c v
          × (encode clock c v ≡ returns j)
          × (lookup_entry k es ≡ some j)
    pub field_at :
        (k : ℕ) (c : Codec)
        → get_field k schema ≡ some c
        → (v : Object clock) × (j : Json) × (get_member k ms ≡ some v)
          × (lookup_entry k es ≡ some j)
          × (decode clock c j ≡ returns v)
    pub decodes :
        (whole : Entries)
        → ((k : ℕ) (j : Json) → lookup_entry k es ≡ some j → lookup_entry k whole ≡ some j)
        → set_attributes clock schema whole ≡ returns ms

  pub encode_member :
      (c : Codec) (enum : ℕ) (m : Option ℕ)
      → Conforms clock c (member_of enum m)
      → encode clock c (member_of enum m) ≡ returns (primitive (enum_value m))
  unfolding encode
  encode_member c enum m (a_member cls members _ h) = ground arith
  encode_member c enum m (an_object factory v made) = elim made [ ]

  pub make_tagged :
      (key enum tag : ℕ) (of_empty : Option ℕ) (classes : Variants) (es : Entries)
      → lookup_entry key es ≡ some (primitive (text tag))
      → make clock (picked_by key enum of_empty classes) (dict es)
        ≡ make_variant clock tag classes es
  unfolding make lookup_entry
  make_tagged key enum tag of_empty classes no_entries h = cc
  make_tagged key enum tag none classes (entry k j rest) h = rw h
  make_tagged key enum tag (some cls) classes (entry k j rest) h = rw h

  pub make_variant-Picks :
      (tag cls : ℕ) (schema : Schema) (classes : Variants) (es : Entries)
      → Picks tag cls schema classes
      → make_variant clock tag classes es
        ≡ (set_attributes clock schema es >>= λ ms. returns (object cls ms))
  unfolding make_variant
  make_variant-Picks tag cls schema _ es here = ground arith
  make_variant-Picks tag cls schema _ es (there {t = t} {rest = rest} other p) =
      ground (arith, make_variant-Picks tag cls schema rest es p)

  pub next_field :
      (key : ℕ) (c : Codec) (rest : Schema) (v : Object clock) (ms : Members clock.Time)
      → IsFresh key rest
      → Conforms clock c v
      → Returns c v
      → ReturnsFields rest ms
      → ReturnsFields (field key c rest) (member key c v ms)
  unfolding json lookup_entry get_member get_field set_attributes
  next_field key c rest v ms new h (j, e, d) r = record {
    es = entry key j r.es;
    encodes = rw (e, ◌>>=◌, r.encodes);
    fresh = λ k f. ground (arith, r.fresh k f.1, f.0);
    found = λ k w g. elim (Bool-cases (k == key)) [
      | inl own ↦
          let same : v ≡ w = ground (arith, own, g) in
          (
            c,
            j,
            subst (Conforms clock c) same h,
            subst (λ u. encode clock c u ≡ returns j) same e,
            ground (arith, own),
          )
      | inr other ↦
          let (c', j', h', e', l) = r.found k w (ground (arith, other, g)) in
          (c', j', h', e', ground (arith, other, l))
    ];
    field_at = λ k c' g. elim (Bool-cases (k == key)) [
      | inl own ↦
          let same : c ≡ c' = ground (arith, own, g) in
          (
            v,
            j,
            ground (arith, own),
            ground (arith, own),
            subst (λ x. decode clock x j ≡ returns v) same d,
          )
      | inr other ↦
          let (v', j', g', l, d') = r.field_at k c' (ground (arith, other, g)) in
          (v', j', ground (arith, other, g'), ground (arith, other, l), d')
    ];
    decodes = λ whole inside.
        let own = inside key j (ground arith) in
        let later = r.decodes whole (λ k i l.
          inside k i (ground (arith, l, r.fresh key new, ap (λ x. lookup_entry x r.es)))) in
        rw (own, d, later);
  }

  pub container-Returns :
      (kind : ContainerType) (c : Codec) (vs : Values clock.Time)
      → collect kind vs ≡ vs
      → ReturnsAll c vs
      → Returns (container_codec kind c) (container kind vs)
  unfolding encode decode
  container-Returns kind c vs whole (js, e, d) =
      (array js, rw (same_type_refl kind, e), rw (d, ◌>>=◌, whole))

  pub class-Returns :
      (cls : ℕ) (schema : Schema) (ms : Members clock.Time)
      → ReturnsFields schema ms
      → Returns (serialisable_codec (of_class cls schema)) (object cls ms)
  unfolding encode decode
  class-Returns cls schema ms r = (dict r.es, rw r.encodes, rw (r.decodes r.es (λ k j l. l)))

  pub tagged-Returns :
      (key enum : ℕ) (of_empty : Option ℕ) (classes : Variants) (tag cls : ℕ) (schema : Schema)
      (ms : Members clock.Time)
      → Picks tag cls schema classes
      → get_member key ms ≡ some (member_of enum (some tag))
      → ReturnsFields schema ms
      → Returns (serialisable_codec (picked_by key enum of_empty classes)) (object cls ms)
  unfolding encode decode
  tagged-Returns key enum of_empty classes tag cls schema ms p g r =
      let (c, j, h, e, l) = r.found key (member_of enum (some tag)) g in
      let tagged = encode_member c enum (some tag) h in
      (
        dict r.es,
        rw r.encodes,
        make_tagged key enum tag of_empty classes r.es (ground (arith, l, e, tagged))
            ∙ make_variant-Picks tag cls schema classes r.es p
            ∙ rw (r.decodes r.es (λ k i m. m)),
      )

  pub moment-Returns :
      (optional : Bool) (t : clock.Time)
      → IsWritten clock t
      → Returns (datetime_codec optional) (moment t)
  unfolding encode decode encode_datetime decode_leaf decode_datetime
  moment-Returns true t h = (primitive (text (clock.strftime t)), rw h.0, rw h.1)
  moment-Returns false t h = (primitive (text (clock.strftime t)), rw h.0, rw h.1)
