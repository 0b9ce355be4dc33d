-- ===== src/Database/Lookups.antt =====
-- What a key gives in the dictionaries of Server/Content/postgresql.py that are filled from rows.
use cpy_q.Prelude.{
  ℕ, ◌≡◌, refl, sym, ap, subst, ◌∙◌, ◌⊎◌, inl, inr, true, false, Option, none, some, List, [], ◌∷◌,
  ◌++◌, map, elem, Occurs, arith, ◌==◌, if◌then◌else◌, is_some, Bool-cases,
}
use mathlib.Core.List.{append_assoc, append-nil}
use cpy_q.Prelude.Dict.{Dict, lookup, insert, lookup-insert}
use cpy_q.Prelude.Raises.{Raises, returns, ◌>>=◌}
use cpy_q.Database.Rows.{
  DatabaseError, dict_keys, get_item, add_empties, empties, fill, append_all, assemble,
}

-- The value is under the key.
abbrev pub HasItem : {Value : Type 0} → (ℕ → Value → Type 0) → ℕ → Dict Value → Type 0
HasItem {Value = Value} R key d = (v : Value) × (lookup key d ≡ some v) × R key v

-- The dictionary has a value of the relation for each of the ids, and no other key.
abbrev pub Holds : {Value : Type 0} → (ℕ → Value → Type 0) → List ℕ → Dict Value → Type 0
Holds R ids d =
    (key : ℕ)
    → ((elem key ids ≡ true) × HasItem R key d) ⊎ ((elem key ids ≡ false) × (lookup key d ≡ none))

module _ {Value : Type 0} where
  pub elem-dict_keys : (key : ℕ) (d : Dict Value) → elem key (dict_keys d) ≡ is_some (lookup key d)
  unfolding lookup
  elem-dict_keys key [] = refl
  elem-dict_keys key (entry ∷ rest) = ground (arith, elem-dict_keys key rest)

  pub get_item_found :
      (key : ℕ) (d : Dict Value) (v : Value) → lookup key d ≡ some v → get_item key d ≡ returns v
  unfolding get_item
  get_item_found key d v h = rw h

  lookup-add_empties :
      (key : ℕ) (ids : List ℕ) (d : Dict (List Value))
      → lookup key (add_empties ids d) ≡ (if elem key ids then some [] else lookup key d)
  unfolding add_empties
  lookup-add_empties key [] d = refl
  lookup-add_empties key (id ∷ ids) d =
      ground (arith, lookup-add_empties key ids (insert id [] d), lookup-insert key id [] d)

  pub lookup-empties :
      (key : ℕ) (ids : List ℕ)
      → lookup {Value = List Value} key (empties ids) ≡ (if elem key ids then some [] else none)
  unfolding lookup
  lookup-empties key ids = lookup-add_empties key ids []

module _ {Row : Type 0} (key : Row → ℕ) where
  -- Each key has a row with that key, or keeps what it had.
  pub fill_cases :
      (k : ℕ) (rows : List Row) (d : Dict Row)
      → ((elem k (map key rows) ≡ true)
          × (r : Row) × Occurs r rows
          × (key r ≡ k)
          × (lookup k (fill key rows d) ≡ some r))
        ⊎ ((elem k (map key rows) ≡ false) × (lookup k (fill key rows d) ≡ lookup k d))
  unfolding fill
  fill_cases k [] d = inr (refl, refl)
  fill_cases k (row ∷ rows) d = elim (fill_cases k rows (insert (key row) row d)) [
    | inl (e, r, o, own, l) ↦ inl (ground (arith, e), r, inr o, own, l)
    | inr (e, l) ↦ elim (Bool-cases (k == key row)) [
      | inl own ↦ inl (
        ground (arith, own),
        row,
        inl refl,
        ground (arith, own),
        l ∙ ground (arith, own, lookup-insert k (key row) row d),
      )
      | inr other ↦
          inr (ground (arith, e, other), l ∙ ground (arith, other, lookup-insert k (key row) row d))
    ]
  ]

module _ {Row Value : Type 0} (key : Row → ℕ) where
  -- The values of the rows with the key, in order.
  abbrev pub values_of : (Row → Value) → ℕ → List Row → List Value
  values_of val k [] = []
  values_of val k (row ∷ rows) =
      let rest = values_of val k rows in if k == key row then val row ∷ rest else rest

  abbrev pub extended : List Value → Option (List Value) → Option (List Value)
  extended vs none = none
  extended vs (some ws) = some (ws ++ vs)

  extended_none : (o : Option (List Value)) → extended [] o ≡ o
  extended_none none = refl
  extended_none (some ws) = ap (λ x. some x) (append-nil ws)

  still_known :
      (k own : ℕ) (ws : List Value) (d : Dict (List Value))
      → (vs : List Value) × (lookup k d ≡ some vs)
      → (vs : List Value) × (lookup k (insert own ws d) ≡ some vs)
  still_known k own ws d (vs, l) = elim (Bool-cases (k == own)) [
    | inl same ↦ (ws, lookup-insert k own ws d ∙ ground (arith, same))
    | inr other ↦ (vs, lookup-insert k own ws d ∙ ground (arith, other, l))
  ]

  appended :
      (val : Row → Value) (row : Row) (rows : List Row) (d : Dict (List Value)) (vs : List Value)
      → lookup (key row) d ≡ some vs
      → (k : ℕ)
      → extended (values_of val k rows) (lookup k (insert (key row) (vs ++ (val row ∷ [])) d))
        ≡ extended (values_of val k (row ∷ rows)) (lookup k d)
  appended val row rows d vs present k = elim (Bool-cases (k == key row)) [
    | inl own ↦
        let here : lookup k d ≡ some vs = ap (λ x. lookup x d) (ground (arith, own)) ∙ present in
        ap (extended (values_of val k rows)) (lookup-insert k (key row) (vs ++ (val row ∷ [])) d)
        ∙ ground (arith, own, here, append_assoc vs (val row ∷ []) (values_of val k rows))
    | inr other ↦
        ap (extended (values_of val k rows)) (lookup-insert k (key row) (vs ++ (val row ∷ [])) d)
        ∙ ground (arith, other)
  ]

  pub append_all_lem :
      (val : Row → Value) (rows : List Row) (d : Dict (List Value))
      → ((r : Row) → Occurs r rows → (vs : List Value) × (lookup (key r) d ≡ some vs))
      → (e : Dict (List Value)) × (append_all key val rows d ≡ returns e)
        × ((k : ℕ) → lookup k e ≡ extended (values_of val k rows) (lookup k d))
  unfolding append_all
  append_all_lem val [] d known = (d, refl, λ k. sym (extended_none (lookup k d)))
  append_all_lem val (row ∷ rows) d known =
      let (vs, present) = known row (inl refl) in
      let next = insert (key row) (vs ++ (val row ∷ [])) d in
      let (e, returned, l) =
        append_all_lem val rows next
          (λ r o. still_known (key r) (key row) (vs ++ (val row ∷ [])) d (known r (inr o))) in
      (
        e,
        rw (get_item_found (key row) d vs present, ◌>>=◌, returned),
        λ k. l k ∙ appended val row rows d vs present k,
      )

  pub assemble_lem :
      (R : ℕ → Value → Type 0) (make : Row → Raises DatabaseError Value) (rows : List Row)
      (d : Dict Value)
      → ((r : Row) → Occurs r rows → (v : Value) × (make r ≡ returns v) × R (key r) v)
      → (e : Dict Value) × (assemble key make rows d ≡ returns e)
        × ((k : ℕ)
            → ((elem k (map key rows) ≡ true) × HasItem R k e)
              ⊎ ((elem k (map key rows) ≡ false) × (lookup k e ≡ lookup k d)))
  unfolding assemble
  assemble_lem R make [] d made = (d, refl, λ k. inr (refl, refl))
  assemble_lem R make (row ∷ rows) d made =
      let (v, e, r) = made row (inl refl) in
      let (whole, returned, has) =
        assemble_lem R make rows (insert (key row) v d) (λ x o. made x (inr o)) in
      (
        whole,
        rw (e, returned),
        λ k. elim (has k) [
          | inl (listed, item) ↦ inl (ground (arith, listed), item)
          | inr (absent, l) ↦ elim (Bool-cases (k == key row)) [
            | inl own ↦ inl (
              ground (arith, own),
              (
                v,
                l ∙ ground (arith, own, lookup-insert k (key row) v d),
                subst (λ x. R x v) (ground (arith, own)) r,
              ),
            )
            | inr other ↦ inr (
              ground (arith, absent, other),
              l ∙ ground (arith, other, lookup-insert k (key row) v d),
            )
          ]
        ],
      )
