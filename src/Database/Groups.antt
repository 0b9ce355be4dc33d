-- ===== src/Database/Groups.antt =====
-- Rows that a query of Server/Content/postgresql.py selects, filled into dictionaries by their keys, one
-- value for each key or a list of them.
use cpy_q.Prelude.{
  ℕ, ◌≡◌, refl, sym, ap, subst, ◌∙◌, inl, inr, Bool, true, false, not, ◌&&◌, List, [], ◌∷◌, map,
  elem, Occurs, elem-Occurs, Occurs-elem, arith, ◌==◌, is_some, Bool-cases,
}
use cpy_q.Prelude.Dict.{Dict}
use cpy_q.Prelude.Raises.{returns, raises, ◌>>=◌}
use cpy_q.Database.Rows.{
  Context, not_found, missing_ids, validate_ids, dict_keys, collect_items, empties, append_all,
}
use cpy_q.Database.Lookups.{
  HasItem, Holds, elem-dict_keys, get_item_found, lookup-empties, values_of, extended,
  append_all_lem,
}
use cpy_q.Database.Tables.{Selects, Groups}

true_iff : (a b : Bool) → (a ≡ true → b ≡ true) → (b ≡ true → a ≡ true) → a ≡ b
true_iff true b f g = sym (f refl)
true_iff false true f g = g refl
true_iff false false f g = refl

elem-missing_ids :
    (x : ℕ) (passed found : List ℕ)
    → elem x (missing_ids passed found) ≡ (elem x passed && not (elem x found))
unfolding missing_ids
elem-missing_ids x [] found = refl
elem-missing_ids x (id ∷ passed) found = elim (Bool-cases (x == id)) [
  | inl own ↦
      let same : elem id found ≡ elem x found = ap (λ y. elem y found) (ground (arith, own)) in
      elim (Bool-cases (elem x found)) [
        | inl h ↦ ground (arith, elem-missing_ids x passed found, own, h, same)
        | inr h ↦ ground (arith, elem-missing_ids x passed found, own, h, same)
      ]
  | inr other ↦ elim (Bool-cases (elem id found)) [
    | inl h ↦ ground (arith, elem-missing_ids x passed found, other, h)
    | inr h ↦ ground (arith, elem-missing_ids x passed found, other, h)
  ]
]

-- `validate_ids` returns when each id was found.
pub validate_ids_found :
    (context : Context) (passed found : List ℕ)
    → ((k : ℕ) → elem k passed ≡ true → elem k found ≡ true)
    → validate_ids context passed found ≡ returns tt
unfolding validate_ids missing_ids
validate_ids_found context [] found h = refl
validate_ids_found context (id ∷ passed) found h =
    let first = h id (ground arith) in
    let rest = validate_ids_found context passed found (λ k e. h k (ground (arith, e))) in
    rw (first, rest)

nonempty :
    (k : ℕ) (ids : List ℕ) → elem k ids ≡ true → (id : ℕ) × (rest : List ℕ) × (ids ≡ id ∷ rest)
nonempty k [] h = cc
nonempty k (id ∷ rest) h = (id, rest, refl)

-- It raises with exactly the ids that were not, when there is one.
pub validate_ids_missing :
    (context : Context) (passed found : List ℕ) (k : ℕ)
    → elem k passed ≡ true
    → elem k found ≡ false
    → (ids : List ℕ) × (validate_ids context passed found ≡ raises (not_found context ids))
      × ((x : ℕ) → elem x ids ≡ (elem x passed && not (elem x found)))
unfolding validate_ids
validate_ids_missing context passed found k asked absent =
    let listed : elem k (missing_ids passed found) ≡ true =
      elem-missing_ids k passed found ∙ rw (asked, absent) in
    let (first, rest, e) = nonempty k (missing_ids passed found) listed in
    (missing_ids passed found, rw e, λ x. elem-missing_ids x passed found)

module _ {Row : Type 0} (column : Row → ℕ) (table : List Row) (ids : List ℕ) (rows : List Row) where
  -- The keys of the rows selected are those asked for that the table has.
  pub Selects-elem :
      Selects column table ids rows
      → (k : ℕ) → elem k (map column rows) ≡ (elem k ids && elem k (map column table))
  Selects-elem selects k =
      true_iff (elem k (map column rows)) (elem k ids && elem k (map column table))
        (λ h.
          let (r, o, own) = elem-Occurs column k rows h in
          let (known, asked) = (selects r).0 o in
          let listed = Occurs-elem column r table known in
          let a : elem k ids ≡ true = ap (λ x. elem x ids) (sym own) ∙ asked in
          let b : elem k (map column table) ≡ true =
            ap (λ x. elem x (map column table)) (sym own) ∙ listed in
          ground (arith, a, b))
        (λ h.
          let a : elem k ids ≡ true = ground (arith, h) in
          let b : elem k (map column table) ≡ true = ground (arith, h, a) in
          let (r, o, own) = elem-Occurs column k table b in
          let found = (selects r).1 (o, ap (λ x. elem x ids) own ∙ a) in
          ap (λ x. elem x (map column rows)) (sym own) ∙ Occurs-elem column r rows found)

module _ {Value : Type 0} (R : ℕ → Value → Type 0) where
  pub Holds-same :
      (xs ys : List ℕ) (d : Dict Value)
      → ((k : ℕ) → elem k xs ≡ elem k ys)
      → Holds R xs d
      → Holds R ys d
  Holds-same xs ys d same h k = elim (h k) [
    | inl (listed, item) ↦ inl (sym (same k) ∙ listed, item)
    | inr (absent, l) ↦ inr (sym (same k) ∙ absent, l)
  ]

  pub Holds-item :
      (ids : List ℕ) (d : Dict Value) → Holds R ids d → (k : ℕ) → elem k ids ≡ true → HasItem R k d
  Holds-item ids d h k asked = elim (h k) [
    | inl (listed, item) ↦ item
    | inr (absent, l) ↦ ground (arith, asked, absent)
  ]

  pub Holds-keys :
      (ids : List ℕ) (d : Dict Value) → Holds R ids d → (k : ℕ) → elem k (dict_keys d) ≡ elem k ids
  Holds-keys ids d h k = elim (h k) [
    | inl (listed, item) ↦ elem-dict_keys k d ∙ ap (λ o. is_some o) item.1 ∙ sym listed
    | inr (absent, l) ↦ elem-dict_keys k d ∙ ap (λ o. is_some o) l ∙ sym absent
  ]

  -- `list(d[key] for key in keys)`, of keys that are there.
  pub collect_items_lem :
      (ids keys : List ℕ) (d : Dict Value)
      → Holds R ids d
      → ((k : ℕ) → Occurs k keys → elem k ids ≡ true)
      → (vs : List Value) × (collect_items keys d ≡ returns vs)
        × ((v : Value) → Occurs v vs → (k : ℕ) × Occurs k keys × R k v)
        × ((k : ℕ) → Occurs k keys → (v : Value) × Occurs v vs × R k v)
  unfolding collect_items
  collect_items_lem ids [] d h listed = ([], refl, (λ v o. elim o [ ]), (λ k o. elim o [ ]))
  collect_items_lem ids (key ∷ keys) d h listed =
      let (v, l, r) = Holds-item ids d h key (listed key (inl refl)) in
      let (vs, e, from, to) = collect_items_lem ids keys d h (λ k o. listed k (inr o)) in
      (
        v ∷ vs,
        rw (get_item_found key d v l, ◌>>=◌, e),
        (λ w o. elim o [
          | inl own ↦ (key, inl refl, subst (R key) (sym own) r)
          | inr o' ↦ let (k, o'', r') = from w o' in (k, inr o'', r')
        ]),
        (λ k o. elim o [
          | inl own ↦ (v, inl refl, subst (λ x. R x v) (sym own) r)
          | inr o' ↦ let (w, o'', r') = to k o' in (w, inr o'', r')
        ]),
      )

module _ {Row Value : Type 0} (column : Row → ℕ) (val : Row → Value) where
  values_of-Groups :
      (k : ℕ) (rows : List Row) → Groups column val rows k (values_of column val k rows)
  values_of-Groups k [] v = ((λ o. elim o [ ]), (λ s. elim s.1 [ ]))
  values_of-Groups k (row ∷ rows) v = elim (Bool-cases (k == column row)) [
    | inl own ↦
        let e : values_of column val k (row ∷ rows) ≡ val row ∷ values_of column val k rows =
          ground (arith, own) in
        (
          (λ o. elim (subst (Occurs v) e o) [
            | inl is ↦ (row, inl refl, ground (arith, own), sym is)
            | inr o' ↦ let (r, o'', c, is) = (values_of-Groups k rows v).0 o' in (r, inr o'', c, is)
          ]),
          (λ s. subst (Occurs v) (sym e) (elim s.1 [
            | inl first ↦ inl (sym s.3 ∙ ap val first)
            | inr o ↦ inr ((values_of-Groups k rows v).1 (s.0, o, s.2, s.3))
          ])),
        )
    | inr other ↦
        let e : values_of column val k (row ∷ rows) ≡ values_of column val k rows =
          ground (arith, other) in
        (
          (λ o.
              let (r, o', c, is) = (values_of-Groups k rows v).0 (subst (Occurs v) e o) in
              (r, inr o', c, is)),
          (λ s. subst (Occurs v) (sym e) (elim s.1 [
            | inl first ↦ ground (arith, other, s.2, ap column first)
            | inr o ↦ (values_of-Groups k rows v).1 (s.0, o, s.2, s.3)
          ])),
        )
  ]

  of_table :
      (table : List Row) (ids : List ℕ) (rows : List Row)
      → Selects column table ids rows
      → (k : ℕ) → elem k ids ≡ true
      → Groups column val table k (values_of column val k rows)
  of_table table ids rows selects k asked v = (
    (λ o. let (r, o', c, is) = (values_of-Groups k rows v).0 o in (r, ((selects r).0 o').0, c, is)),
    (λ s.
        let found = (selects s.0).1 (s.1, ap (λ x. elem x ids) s.2 ∙ asked) in
        (values_of-Groups k rows v).1 (s.0, found, s.2, s.3)),
  )

  -- One list for each id, of the rows selected by it.
  pub grouped-Holds :
      (table : List Row) (ids : List ℕ) (rows : List Row)
      → Selects column table ids rows
      → (d : Dict (List Value)) × (append_all column val rows (empties ids) ≡ returns d)
        × Holds (Groups column val table) ids d
  grouped-Holds table ids rows selects =
      let (d, e, l) =
        append_all_lem column val rows (empties ids)
          (λ r o. ([], lookup-empties (column r) ids ∙ rw ((selects r).0 o).1)) in
      (
        d,
        e,
        λ k. elim (Bool-cases (elem k ids)) [
          | inl asked ↦ inl (
            asked,
            (
              values_of column val k rows,
              l k
                  ∙ ap (extended column (values_of column val k rows)) (lookup-empties k ids)
                  ∙ rw asked,
              of_table table ids rows selects k asked,
            ),
          )
          | inr absent ↦ inr (
            absent,
            l k
                ∙ ap (extended column (values_of column val k rows)) (lookup-empties k ids)
                ∙ rw absent,
          )
        ],
      )
