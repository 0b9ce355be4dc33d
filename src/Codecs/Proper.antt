-- ===== src/Codecs/Proper.antt =====
-- What the codecs of a program have to be for decoded objects to encode: the keys of each class are
-- distinct, and each class that a function picks has the key that it is picked by.
use cpy_q.Prelude.{ℕ, ◌≡◌, refl, Bool, true, false, not, ◌&&◌, Option, some, elem, arith, ◌==◌}
use cpy_q.Codecs.Trees.{
  Codec, enum_codec, container_codec, serialisable_codec, Factory, of_class, picked_by, Schema,
  no_fields, field, Variants, no_variants, variant,
}
use cpy_q.Codecs.{get_field}
use cpy_q.Codecs.Conforms.{IsFresh, Picks, here, there}
use cpy_q.Codecs.Metaclass.{keys, all_codecs, update, inherited, set_field}
use cpy_q.Codecs.Classes

abbrev pub is_enum : ℕ → Option Codec → Bool
is_enum enum (some (enum_codec cls members)) = enum == cls
is_enum enum _ = false

unfoldable mutual
  unfolding get_field

  pub is_proper : Codec → Bool
  is_proper (container_codec kind c) = is_proper c
  is_proper (serialisable_codec factory) = makes_proper factory
  is_proper _ = true

  pub makes_proper : Factory → Bool
  makes_proper (of_class cls schema) = has_proper schema
  makes_proper (picked_by key enum of_empty classes) = picks_proper key enum classes

  pub picks_proper : ℕ → ℕ → Variants → Bool
  picks_proper key enum no_variants = true
  picks_proper key enum (variant tag cls schema rest) =
      (is_enum enum (get_field key schema) && has_proper schema) && picks_proper key enum rest

  pub has_proper : Schema → Bool
  has_proper no_fields = true
  has_proper (field k c rest) = (not (elem k (keys rest)) && is_proper c) && has_proper rest

pub absent-IsFresh : (k : ℕ) (s : Schema) → elem k (keys s) ≡ false → IsFresh k s
absent-IsFresh k no_fields h = tt
absent-IsFresh k (field k' c rest) h =
    (ground (arith, h), absent-IsFresh k rest (ground (arith, h)))

both_true : (a b : Bool) → (a && b) ≡ true → (a ≡ true) × (b ≡ true)
both_true true b h = (refl, h)
both_true false b h = cc

not-true : (b : Bool) → not b ≡ true → b ≡ false
not-true true h = cc
not-true false h = refl

pub proper_field :
    (k : ℕ) (c : Codec) (rest : Schema)
    → has_proper (field k c rest) ≡ true
    → (elem k (keys rest) ≡ false) × (is_proper c ≡ true) × (has_proper rest ≡ true)
unfolding has_proper
proper_field k c rest p =
    let (first, later) = both_true (not (elem k (keys rest)) && is_proper c) (has_proper rest) p in
    let (new, proper) = both_true (not (elem k (keys rest))) (is_proper c) first in
    (not-true (elem k (keys rest)) new, proper, later)

pub proper_variant :
    (key enum tag cls : ℕ) (schema : Schema) (rest : Variants)
    → picks_proper key enum (variant tag cls schema rest) ≡ true
    → (is_enum enum (get_field key schema) ≡ true)
      × (has_proper schema ≡ true)
      × (picks_proper key enum rest ≡ true)
unfolding picks_proper
proper_variant key enum tag cls schema rest p =
    let (first, later) =
      both_true (is_enum enum (get_field key schema) && has_proper schema)
        (picks_proper key enum rest) p in
    let (keyed, proper) =
      both_true (is_enum enum (get_field key schema)) (has_proper schema) first in
    (keyed, proper, later)

pub picked_proper :
    (key enum tag cls : ℕ) (schema : Schema) (classes : Variants)
    → picks_proper key enum classes ≡ true
    → Picks tag cls schema classes
    → (is_enum enum (get_field key schema) ≡ true) × (has_proper schema ≡ true)
picked_proper key enum tag cls schema _ p (here {rest = rest}) =
    let (keyed, proper, _) = proper_variant key enum tag cls schema rest p in (keyed, proper)
picked_proper key enum tag cls schema _ p
      (there {cls = _} {t = t} {c = c} {schema = _} {s = s} {rest = rest} other picked) =
    let (_, _, later) = proper_variant key enum t c s rest p in
    picked_proper key enum tag cls schema rest later picked

-- The classes of the repository are such.
token-proper : has_proper Classes.token ≡ true
unfolding has_proper all_codecs update inherited set_field get_field
token-proper = refl

ws_event-proper : has_proper Classes.ws_event ≡ true
unfolding has_proper all_codecs update inherited set_field get_field
ws_event-proper = refl
