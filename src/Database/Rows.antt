-- ===== src/Database/Rows.antt =====
-- Dictionaries over rows, as the methods of Server/Content/postgresql.py fill them, and what they raise.
use cpy_q.Prelude.{ℕ, Option, none, some, List, [], ◌∷◌, ◌++◌, elem, if◌then◌else◌}
use cpy_q.Prelude.Dict.{Dict, lookup, insert}
use cpy_q.Prelude.Raises.{Raises, returns, raises, ◌>>=◌}

-- The `context` of `validate_ids`
pub data Context : Type 0 where
  user_context team_context company_context quote_context : Context

-- The `ValueError` of `validate_ids` with its ids, which the message sorts; a `KeyError`; the
-- `RuntimeError` of `make_call`; what `create_pool` raises.
pub data DatabaseError : Type 0 where
  not_found : Context → List ℕ → DatabaseError
  key_error pool_closed connect_failed : DatabaseError

-- `set(passed_ids) - set(found_ids)`
unfoldable pub missing_ids : List ℕ → List ℕ → List ℕ
missing_ids [] found = []
missing_ids (id ∷ ids) found =
    let rest = missing_ids ids found in if elem id found then rest else id ∷ rest

abbrev pub raise_missing : Context → List ℕ → Raises DatabaseError Unit
raise_missing context [] = returns tt
raise_missing context (id ∷ ids) = raises (not_found context (id ∷ ids))

unfoldable pub validate_ids : Context → List ℕ → List ℕ → Raises DatabaseError Unit
unfolding missing_ids
validate_ids context passed found = raise_missing context (missing_ids passed found)

abbrev pub concat : {A : Type 0} → List (List A) → List A
concat [] = []
concat (xs ∷ rest) = xs ++ concat rest

module _ {Value : Type 0} where
  -- `d.keys()`
  abbrev pub dict_keys : Dict Value → List ℕ
  dict_keys [] = []
  dict_keys (entry ∷ rest) = entry.0 ∷ dict_keys rest

  -- `d.values()`
  abbrev pub dict_values : Dict Value → List Value
  dict_values [] = []
  dict_values (entry ∷ rest) = entry.1 ∷ dict_values rest

  abbrev pub found_item : Option Value → Raises DatabaseError Value
  found_item none = raises key_error
  found_item (some v) = returns v

  abbrev pub or_default : Value → Option Value → Value
  or_default v none = v
  or_default v (some w) = w

  -- `d[key]`
  unfoldable pub get_item : ℕ → Dict Value → Raises DatabaseError Value
  get_item key d = found_item (lookup key d)

  -- `d.get(key, default)`
  unfoldable pub get_or : Value → ℕ → Dict Value → Value
  get_or default key d = or_default default (lookup key d)

  -- `list(d[key] for key in keys)`
  unfoldable pub collect_items : List ℕ → Dict Value → Raises DatabaseError (List Value)
  collect_items [] d = returns []
  collect_items (key ∷ keys) d =
      get_item key d >>= λ v. collect_items keys d >>= λ vs. returns (v ∷ vs)

  -- `{id_: [] for id_ in ids}`
  unfoldable pub add_empties : List ℕ → Dict (List Value) → Dict (List Value)
  add_empties [] d = d
  add_empties (id ∷ ids) d = add_empties ids (insert id [] d)

  abbrev pub empties : List ℕ → Dict (List Value)
  empties ids = add_empties ids []

module _ {Row : Type 0} (key : Row → ℕ) where
  -- `for json in rows: d[json[key]] = json`
  unfoldable pub fill : List Row → Dict Row → Dict Row
  fill [] d = d
  fill (row ∷ rows) d = fill rows (insert (key row) row d)

module _ {Row Value : Type 0} (key : Row → ℕ) where
  -- `for json in rows: d[json[key]].append(json[val])`
  unfoldable pub append_all :
      (Row → Value) → List Row → Dict (List Value) → Raises DatabaseError (Dict (List Value))
  append_all val [] d = returns d
  append_all val (row ∷ rows) d =
      get_item (key row) d >>= λ vs. append_all val rows (insert (key row) (vs ++ (val row ∷ [])) d)

  -- `for json in rows: d[json[key]] = make(json)`
  unfoldable pub assemble :
      (Row → Raises DatabaseError Value) → List Row → Dict Value → Raises DatabaseError (Dict Value)
  assemble make [] d = returns d
  assemble make (row ∷ rows) d = make row >>= λ v. assemble make rows (insert (key row) v d)
