-- ===== src/Codecs/Sets.antt =====
-- What the constructors `set` and `frozenset` of ContainerCodec make: no two equal objects, and again
-- the same from what they made.
use cpy_q.Prelude.{◌≡◌, refl, inl, inr, false, arith, Bool-cases}
use cpy_q.Codecs.Trees.{
  ContainerType, list_type, tuple_type, set_type, frozenset_type, Codec, Value, Values, no_values,
  value,
}
use cpy_q.Codecs.{Clock, Object, same_object, remove_same, unique, collect}
use cpy_q.Codecs.Conforms.{AllConform, none_left, one_more}

module _ {Time : Type 0} where
  -- The object equals none of those.
  abbrev AllDiffer : Value Time → Values Time → Type 0
  AllDiffer v no_values = Unit
  AllDiffer v (value w rest) = (same_object v w ≡ false) × AllDiffer v rest

  -- No two of the objects are equal.
  abbrev AreUnique : Values Time → Type 0
  AreUnique no_values = Unit
  AreUnique (value v rest) = AllDiffer v rest × AreUnique rest

  remove_same_differs : (v : Value Time) (vs : Values Time) → AllDiffer v (remove_same v vs)
  unfolding remove_same
  remove_same_differs v no_values = tt
  remove_same_differs v (value w rest) = elim (Bool-cases (same_object v w)) [
    | inl same ↦ ground (arith, same, remove_same_differs v rest)
    | inr other ↦ ground (arith, other, remove_same_differs v rest)
  ]

  AllDiffer-remove_same :
      (u v : Value Time) (vs : Values Time) → AllDiffer u vs → AllDiffer u (remove_same v vs)
  unfolding remove_same
  AllDiffer-remove_same u v no_values a = tt
  AllDiffer-remove_same u v (value w rest) a = elim (Bool-cases (same_object v w)) [
    | inl same ↦ ground (arith, same, AllDiffer-remove_same u v rest a.1)
    | inr other ↦ ground (arith, other, a.0, AllDiffer-remove_same u v rest a.1)
  ]

  AreUnique-remove_same :
      (v : Value Time) (vs : Values Time) → AreUnique vs → AreUnique (remove_same v vs)
  unfolding remove_same
  AreUnique-remove_same v no_values a = tt
  AreUnique-remove_same v (value w rest) a = elim (Bool-cases (same_object v w)) [
    | inl same ↦ ground (arith, same, AreUnique-remove_same v rest a.1)
    | inr other ↦
        ground (arith, other, AllDiffer-remove_same w v rest a.0, AreUnique-remove_same v rest a.1)
  ]

  unique-AreUnique : (vs : Values Time) → AreUnique (unique vs)
  unfolding unique
  unique-AreUnique no_values = tt
  unique-AreUnique (value v rest) = (
    remove_same_differs v (unique rest),
    AreUnique-remove_same v (unique rest) (unique-AreUnique rest),
  )

  remove_same_absent : (v : Value Time) (vs : Values Time) → AllDiffer v vs → remove_same v vs ≡ vs
  unfolding remove_same
  remove_same_absent v no_values a = refl
  remove_same_absent v (value w rest) a = ground (arith, a.0, remove_same_absent v rest a.1)

  unique_unchanged : (vs : Values Time) → AreUnique vs → unique vs ≡ vs
  unfolding unique
  unique_unchanged no_values a = refl
  unique_unchanged (value v rest) a = rw (unique_unchanged rest a.1, remove_same_absent v rest a.0)

  pub collect-collect :
      (kind : ContainerType) (vs : Values Time) → collect kind (collect kind vs) ≡ collect kind vs
  collect-collect list_type vs = refl
  collect-collect tuple_type vs = refl
  collect-collect set_type vs = unique_unchanged (unique vs) (unique-AreUnique vs)
  collect-collect frozenset_type vs = unique_unchanged (unique vs) (unique-AreUnique vs)

module _ (clock : Clock) (c : Codec) where
  remove_same-AllConform :
      (v : Object clock) (vs : Values clock.Time)
      → AllConform clock c vs
      → AllConform clock c (remove_same v vs)
  unfolding remove_same
  remove_same-AllConform v _ (none_left _) = none_left c
  remove_same-AllConform v _ (one_more _ w rest h all) = elim (Bool-cases (same_object v w)) [
    | inl same ↦ ground (arith, same, remove_same-AllConform v rest all)
    | inr other ↦
        ground
          (arith, other, one_more c w (remove_same v rest) h (remove_same-AllConform v rest all))
  ]

  unique-AllConform :
      (vs : Values clock.Time) → AllConform clock c vs → AllConform clock c (unique vs)
  unfolding unique
  unique-AllConform _ (none_left _) = none_left c
  unique-AllConform _ (one_more _ v rest h all) =
      one_more c v (remove_same v (unique rest)) h
        (remove_same-AllConform v (unique rest) (unique-AllConform rest all))

  pub collect-AllConform :
      (kind : ContainerType) (vs : Values clock.Time)
      → AllConform clock c vs
      → AllConform clock c (collect kind vs)
  collect-AllConform list_type vs all = all
  collect-AllConform tuple_type vs all = all
  collect-AllConform set_type vs all = unique-AllConform vs all
  collect-AllConform frozenset_type vs all = unique-AllConform vs all
