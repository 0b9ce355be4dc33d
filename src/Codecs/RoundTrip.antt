-- ===== src/Codecs/RoundTrip.antt =====
-- What the codecs of Common/codecs.py and Common/bases.py encode, they decode again.
use cpy_q.Prelude.{ℕ, ◌≡◌, refl, Option, none, some, arith}
use cpy_q.Prelude.Raises.{returns, raises, ◌>>=◌}
use cpy_q.Codecs.Trees.{
  null, Json, primitive, dict, no_items, item, no_entries, Codec, serialisable_codec, Factory,
  Schema, no_fields, field, object, Values, Members, no_members, member,
}
use cpy_q.Codecs.{
  type_error, value_error, other_class, the_base, subclass, Clock, Object, get_field, decompose,
  validate, enum_value, lookup_entry, get_member, decode_items, decode_datetime, encode_datetime,
  decode_leaf, decode, make, set_attributes, encode,
}
use cpy_q.Codecs.Conforms.{
  Conforms, a_member, a_primitive, a_moment, no_moment, a_container, an_object, AllConform,
  none_left, one_more, IsMadeBy, by_class, empty, by_tag, Fits, no_more, next,
}
use cpy_q.Codecs.Returned.{
  Returns, ReturnsAll, ReturnsFields, next_field, container-Returns, class-Returns, tagged-Returns,
  moment-Returns, decode_enum-enum_value,
}

module _ (clock : Clock) where
  mutual
    unfolding encode decode validate decode_leaf encode_datetime decode_datetime decode_items
        get_member get_field lookup_entry

    value-Returns : (c : Codec) (v : Object clock) → Conforms clock c v → Returns clock c v
    value-Returns _ _ (a_member cls members m h) =
        (primitive (enum_value m), ground arith, rw (decode_enum-enum_value cls members m h))
    value-Returns _ _ (a_primitive types optional p h) = (primitive p, ground arith, ground arith)
    value-Returns _ _ (a_moment optional t h) = moment-Returns clock optional t h
    value-Returns _ _ no_moment = (primitive null, refl, refl)
    value-Returns _ _ (a_container kind c vs all whole) =
        container-Returns clock kind c vs whole (values-ReturnsAll c vs all)
    value-Returns _ _ (an_object factory v made) = object-Returns factory v made

    values-ReturnsAll :
        (c : Codec) (vs : Values clock.Time) → AllConform clock c vs → ReturnsAll clock c vs
    values-ReturnsAll _ _ (none_left c) = (no_items, refl, refl)
    values-ReturnsAll _ _ (one_more c v rest h all) =
        let (j, e, d) = value-Returns c v h in
        let (js, es, ds) = values-ReturnsAll c rest all in
        (item j js, rw (e, ◌>>=◌, es), rw (d, ◌>>=◌, ds))

    object-Returns :
        (factory : Factory) (v : Object clock)
        → IsMadeBy clock factory v
        → Returns clock (serialisable_codec factory) v
    object-Returns _ _ (by_class cls schema ms fits) =
        class-Returns clock cls schema ms (fields-ReturnsFields schema ms fits)
    object-Returns _ _ (empty key enum cls classes) = (dict no_entries, refl, refl)
    object-Returns _ _ (by_tag key enum of_empty classes tag cls schema ms p g fits) =
        tagged-Returns clock key enum of_empty classes tag cls schema ms p g
          (fields-ReturnsFields schema ms fits)

    pub fields-ReturnsFields :
        (schema : Schema) (ms : Members clock.Time)
        → Fits clock schema ms
        → ReturnsFields clock schema ms
    fields-ReturnsFields _ _ no_more = record {
      es = no_entries;
      encodes = refl;
      fresh = λ k f. refl;
      found = λ k v g. cc;
      field_at = λ k c g. cc;
      decodes = λ whole inside. refl;
    }
    fields-ReturnsFields _ _ (next key c rest v ms new h fits) =
        next_field clock key c rest v ms new h (value-Returns c v h)
          (fields-ReturnsFields rest ms fits)

  -- Each value that a codec is for encodes without an exception, and the codec decodes the JSON to the
  -- same value: attributes, members of containers and nested objects included, where each datetime in
  -- it is aware and one that `strptime` reads back.
  pub decode-encode :
      (c : Codec) (v : Object clock)
      → Conforms clock c v
      → (j : Json) × (encode clock c v ≡ returns j) × (decode clock c j ≡ returns v)
  decode-encode = value-Returns

  abbrev kept : ℕ → Codec → Option (Object clock) → Members clock.Time → Members clock.Time
  kept k c none ms = ms
  kept k c (some v) ms = member k c v ms

  -- The attributes of the object under the keys of the target, in the target's order.
  abbrev pub project : Schema → Members clock.Time → Members clock.Time
  project no_fields ms = no_members
  project (field k c rest) ms = kept k c (get_member k ms) (project rest ms)

  -- Each codec of the target is one of the class, under the same key.
  abbrev pub Within : Schema → Schema → Type 0
  Within no_fields schema = Unit
  Within (field k c rest) schema = (get_field k schema ≡ some c) × Within rest schema

  set_attributes-project :
      (target schema : Schema) (ms : Members clock.Time) (r : ReturnsFields clock schema ms)
      → Within target schema
      → set_attributes clock target r.es ≡ returns (project target ms)
  unfolding set_attributes
  set_attributes-project no_fields schema ms r w = refl
  set_attributes-project (field k c rest) schema ms r w =
      let (v, j, g, l, d) = r.field_at k c w.0 in
      rw (l, d, set_attributes-project rest schema ms r w.1, g)

  -- An object whose attributes are values that its codecs are for, with each datetime in them aware and
  -- one that `strptime` reads back, decomposes into each proper subclass of Serialisable whose codecs
  -- are among its own: `decompose` raises nothing, and makes an object of that class with the same
  -- attributes. With Serialisable itself as the target it raises ValueError, and with any class that is
  -- no subclass of Serialisable it raises TypeError.
  pub decompose-project :
      (cls : ℕ) (target schema : Schema) (ms : Members clock.Time)
      → Fits clock schema ms
      → Within target schema
      → (decompose clock (subclass cls target) ms ≡ returns (object cls (project target ms)))
        × (decompose clock the_base ms ≡ raises value_error)
        × (decompose clock other_class ms ≡ raises type_error)
  unfolding decompose make
  decompose-project cls target schema ms fits w =
      let r = fields-ReturnsFields schema ms fits in
      (rw (r.encodes, set_attributes-project target schema ms r w), rw r.encodes, refl)
