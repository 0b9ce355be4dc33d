-- ===== src/Database/Distinct.antt =====
-- The dictionaries of Server/Content/postgresql.py have each key once, so iterating one gives what the
-- lookups give.
use cpy_q.Prelude.{
  ℕ, ◌≡◌, refl, sym, ap, subst, ◌∙◌, inl, inr, true, false, ◌||◌, some, List, [], ◌∷◌, ◌++◌, elem,
  Occurs, arith, ◌==◌, is_some, Bool-cases,
}
use cpy_q.Prelude.Dict.{Dict, lookup, insert, lookup-insert}
use cpy_q.Prelude.Raises.{Raises, returns, >>=_returns}
use cpy_q.Database.Rows.{
  DatabaseError, dict_keys, dict_values, get_item, add_empties, fill, append_all, assemble,
}
use cpy_q.Database.Lookups.{Holds, elem-dict_keys}

module _ {Value : Type 0} where
  -- No key comes twice.
  abbrev pub IsDict : Dict Value → Type 0
  IsDict [] = Unit
  IsDict (entry ∷ rest) = (elem entry.0 (dict_keys rest) ≡ false) × IsDict rest

  elem-dict_keys-insert :
      (x k : ℕ) (v : Value) (d : Dict Value)
      → elem x (dict_keys (insert k v d)) ≡ ((x == k) || elem x (dict_keys d))
  elem-dict_keys-insert x k v d =
      elem-dict_keys x (insert k v d)
      ∙ ap (λ o. is_some o) (lookup-insert x k v d)
      ∙ ground (arith, elem-dict_keys x d)

  pub insert-IsDict : (k : ℕ) (v : Value) (d : Dict Value) → IsDict d → IsDict (insert k v d)
  unfolding insert
  insert-IsDict k v [] h = (refl, tt)
  insert-IsDict k v (entry ∷ rest) h = elim (Bool-cases (k == entry.0)) [
    | inl own ↦
        let fresh : elem k (dict_keys rest) ≡ false =
          ap (λ x. elem x (dict_keys rest)) (ground (arith, own)) ∙ h.0 in
        ground (arith, own, fresh, h.1)
    | inr other ↦
        let fresh : elem entry.0 (dict_keys (insert k v rest)) ≡ false =
          elem-dict_keys-insert entry.0 k v rest ∙ ground (arith, other, h.0) in
        ground (arith, other, fresh, insert-IsDict k v rest h.1)
  ]

  pub Occurs-elem-dict_keys :
      (e : ℕ × Value) (d : Dict Value) → Occurs e d → elem e.0 (dict_keys d) ≡ true
  Occurs-elem-dict_keys e [] o = elim o [ ]
  Occurs-elem-dict_keys e (entry ∷ rest) (inl is) = ground (arith, ap (λ x. x.0) is)
  Occurs-elem-dict_keys e (entry ∷ rest) (inr o) = ground (arith, Occurs-elem-dict_keys e rest o)

  pub lookup-Occurs :
      (e : ℕ × Value) (d : Dict Value) → IsDict d → Occurs e d → lookup e.0 d ≡ some e.1
  unfolding lookup
  lookup-Occurs e [] h o = elim o [ ]
  lookup-Occurs e (entry ∷ rest) h (inl is) = ground (arith, ap (λ x. x.0) is, ap (λ x. x.1) is)
  lookup-Occurs e (entry ∷ rest) h (inr o) = elim (Bool-cases (e.0 == entry.0)) [
    | inl same ↦
        let listed : elem entry.0 (dict_keys rest) ≡ true =
          ap (λ x. elem x (dict_keys rest)) (ground (arith, same))
          ∙ Occurs-elem-dict_keys e rest o in
        ground (arith, listed, h.0)
    | inr other ↦ ground (arith, other, lookup-Occurs e rest h.1 o)
  ]

  Occurs-dict_values :
      (v : Value) (d : Dict Value)
      → Occurs v (dict_values d)
      → (e : ℕ × Value) × Occurs e d × (e.1 ≡ v)
  Occurs-dict_values v [] o = elim o [ ]
  Occurs-dict_values v (entry ∷ rest) (inl is) = (entry, inl refl, sym is)
  Occurs-dict_values v (entry ∷ rest) (inr o) =
      let (e, o', is) = Occurs-dict_values v rest o in (e, inr o', is)

  pub dict_values-Occurs :
      (k : ℕ) (v : Value) (d : Dict Value) → lookup k d ≡ some v → Occurs v (dict_values d)
  unfolding lookup
  dict_values-Occurs k v [] l = cc
  dict_values-Occurs k v (entry ∷ rest) l = elim (Bool-cases (k == entry.0)) [
    | inl own ↦ inl (ground (arith, own, l))
    | inr other ↦ inr (dict_values-Occurs k v rest (ground (arith, other, l)))
  ]

  -- Each value of a dictionary is one of the relation.
  pub Holds-values :
      (R : ℕ → Value → Type 0) (ids : List ℕ) (d : Dict Value)
      → Holds R ids d
      → IsDict d
      → (v : Value) → Occurs v (dict_values d)
      → (k : ℕ) × (elem k ids ≡ true) × R k v
  Holds-values R ids d h once v o =
      let (e, o', is) = Occurs-dict_values v d o in
      let l = lookup-Occurs e d once o' in
      elim (h e.0) [
        | inl (listed, (w, lw, r)) ↦
            let same : w ≡ v = ground (arith, lw, l, is) in (e.0, listed, subst (R e.0) same r)
        | inr (absent, lw) ↦ ground (arith, l, lw)
      ]

pub add_empties-IsDict :
    {Value : Type 0} (ids : List ℕ) (d : Dict (List Value)) → IsDict d → IsDict (add_empties ids d)
unfolding add_empties
add_empties-IsDict [] d h = h
add_empties-IsDict (id ∷ ids) d h =
    add_empties-IsDict ids (insert id [] d) (insert-IsDict id [] d h)

module _ {Row : Type 0} (column : Row → ℕ) where
  pub fill-IsDict : (rows : List Row) (d : Dict Row) → IsDict d → IsDict (fill column rows d)
  unfolding fill
  fill-IsDict [] d h = h
  fill-IsDict (row ∷ rows) d h =
      fill-IsDict rows (insert (column row) row d) (insert-IsDict (column row) row d h)

module _ {Row Value : Type 0} (column : Row → ℕ) where
  pub append_all-IsDict :
      (val : Row → Value) (rows : List Row) (d e : Dict (List Value))
      → append_all column val rows d ≡ returns e
      → IsDict d
      → IsDict e
  unfolding append_all
  append_all-IsDict val [] d e r h = subst IsDict (ground (arith, r)) h
  append_all-IsDict val (row ∷ rows) d e r h =
      let (vs, l, r') =
        >>=_returns (get_item (column row) d)
          (λ vs. append_all column val rows (insert (column row) (vs ++ (val row ∷ [])) d)) e r in
      append_all-IsDict val rows (insert (column row) (vs ++ (val row ∷ [])) d) e r'
        (insert-IsDict (column row) (vs ++ (val row ∷ [])) d h)

  pub assemble-IsDict :
      (make : Row → Raises DatabaseError Value) (rows : List Row) (d e : Dict Value)
      → assemble column make rows d ≡ returns e
      → IsDict d
      → IsDict e
  unfolding assemble
  assemble-IsDict make [] d e r h = subst IsDict (ground (arith, r)) h
  assemble-IsDict make (row ∷ rows) d e r h =
      let (v, l, r') =
        >>=_returns (make row) (λ v. assemble column make rows (insert (column row) v d)) e r in
      assemble-IsDict make rows (insert (column row) v d) e r' (insert-IsDict (column row) v d h)
