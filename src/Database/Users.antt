-- ===== src/Database/Users.antt =====
-- How PostgreSQLClient of Server/Content/postgresql.py puts the users of several rows together.
use cpy_q.Prelude.{
  ℕ, ◌≡◌, refl, sym, ap, subst, ◌∙◌, ◌⊎◌, inl, inr, true, false, List, [], ◌∷◌, ◌++◌, map, elem,
  Occurs, arith, ◌==◌, Bool-cases,
}
use cpy_q.Prelude.Dict.{Dict}
use cpy_q.Prelude.Raises.{returns, ◌>>=◌, ◌>>◌, >>=_returns}
use cpy_q.Database.Rows.{
  user_context, validate_ids, dict_keys, dict_values, concat, empties, fill, append_all,
}
use cpy_q.Database.{make_call, UserRow, Team, User, Database, get_assignments, make_user, get_users}
use cpy_q.Database.Lookups.{Holds, get_item_found}
use cpy_q.Database.Tables.{Tables, Selects, Answers, HasReferences, Groups, IsTeam, IsUser}
use cpy_q.Database.Groups.{Holds-same, Holds-item, Holds-keys, collect_items_lem}
use cpy_q.Database.Distinct.{
  Occurs-elem-dict_keys, IsDict, add_empties-IsDict, fill-IsDict, append_all-IsDict, lookup-Occurs,
  dict_values-Occurs, Holds-values,
}
use cpy_q.Database.Assembly.{
  fill-Holds, assemble-Holds, make_call_open, get_assignments-Holds, get_teams-Holds,
}

Occurs-append :
    {A : Type 0} (x : A) (xs ys : List A) → Occurs x (xs ++ ys) → Occurs x xs ⊎ Occurs x ys
Occurs-append x [] ys o = inr o
Occurs-append x (y ∷ xs) ys (inl is) = inl (inl is)
Occurs-append x (y ∷ xs) ys (inr o) = elim (Occurs-append x xs ys o) [
  | inl o' ↦ inl (inr o')
  | inr o' ↦ inr o'
]

pub Occurs-listed : (k : ℕ) (ks : List ℕ) → elem k ks ≡ true → Occurs k ks
Occurs-listed k [] h = cc
Occurs-listed k (x ∷ ks) h = elim (Bool-cases (k == x)) [
  | inl own ↦ inl (ground (arith, own))
  | inr other ↦ inr (Occurs-listed k ks (ground (arith, other, h)))
]

Occurs-concat :
    {A : Type 0} (x : A) (lists : List (List A))
    → Occurs x (concat lists)
    → (xs : List A) × Occurs xs lists × Occurs x xs
Occurs-concat x [] o = elim o [ ]
Occurs-concat x (xs ∷ lists) o = elim (Occurs-append x xs (concat lists) o) [
  | inl o' ↦ (xs, inl refl, o')
  | inr o' ↦ let (ys, l, o'') = Occurs-concat x lists o' in (ys, inr l, o'')
]

pub listed-Occurs : (k : ℕ) (ks : List ℕ) → Occurs k ks → elem k ks ≡ true
listed-Occurs k [] o = elim o [ ]
listed-Occurs k (x ∷ ks) (inl is) = ground (arith, is)
listed-Occurs k (x ∷ ks) (inr o) = ground (arith, listed-Occurs k ks o)

elem-append :
    (k : ℕ) (xs ys : List ℕ) → (elem k xs ≡ true) ⊎ (elem k ys ≡ true) → elem k (xs ++ ys) ≡ true
elem-append k [] ys (inl h) = cc
elem-append k [] ys (inr h) = h
elem-append k (x ∷ xs) ys h = elim (Bool-cases (k == x)) [
  | inl own ↦ ground (arith, own)
  | inr other ↦ elim h [
    | inl e ↦ ground (arith, other, elem-append k xs ys (inl (ground (arith, other, e))))
    | inr e ↦ ground (arith, other, elem-append k xs ys (inr e))
  ]
]

pub elem-concat :
    (k : ℕ) (xs : List ℕ) (lists : List (List ℕ))
    → Occurs xs lists
    → Occurs k xs
    → elem k (concat lists) ≡ true
elem-concat k xs [] o l = elim o [ ]
elem-concat k xs (ys ∷ lists) (inl is) l =
    elem-append k ys (concat lists) (inl (listed-Occurs k ys (subst (Occurs k) is l)))
elem-concat k xs (ys ∷ lists) (inr o) l =
    elem-append k ys (concat lists) (inr (elem-concat k xs lists o l))

map-keys : {Value : Type 0} (d : Dict Value) → map (λ e. e.0) d ≡ dict_keys d
map-keys [] = refl
map-keys (entry ∷ rest) = rw (map-keys rest)

module _ (db : Database) (tables : Tables) (answers : Answers db tables)
    (refs : HasReferences tables) where
  pub get_assignments-IsDict :
      (ids : List ℕ) (d : Dict (List ℕ)) → get_assignments db false ids ≡ returns d → IsDict d
  unfolding get_assignments
  get_assignments-IsDict [] d e = let is : [] ≡ d = ground (arith, e) in subst IsDict is tt
  get_assignments-IsDict (id ∷ ids) d e =
      let asked = db.set_order (id ∷ ids) in
      let (rows, _, e') =
        >>=_returns (make_call db.pool (db.assignments_of_users asked))
          (λ rows. append_all (λ r. r.user_id) (λ r. r.team_id) rows (empties asked)) d e in
      append_all-IsDict (λ r. r.user_id) (λ r. r.team_id) rows (empties asked) d e'
        (add_empties-IsDict asked [] tt)

  -- The assigned teams of users are in the table.
  pub assigned_present :
      (ids : List ℕ) (d : Dict (List ℕ))
      → Holds (Groups (λ r. r.user_id) (λ r. r.team_id) tables.assignments) ids d
      → IsDict d
      → (k : ℕ) → elem k (concat (dict_values d)) ≡ true
      → elem k (map (λ t. t.id) tables.teams) ≡ true
  assigned_present ids d h once k listed =
      let (ts, o', l) =
        Occurs-concat k (dict_values d) (Occurs-listed k (concat (dict_values d)) listed) in
      let (user, asked, groups) =
        Holds-values (Groups (λ r. r.user_id) (λ r. r.team_id) tables.assignments) ids d h once ts
          o' in
      let (r, known, _, is) = (groups k).0 l in
      ap (λ y. elem y (map (λ t. t.id) tables.teams)) (sym is) ∙ refs.team_of r known

  row_known :
      (ids : List ℕ) (rows : List UserRow)
      → Selects (λ r. r.id) tables.users ids rows
      → (e : ℕ × UserRow) → Occurs e (fill (λ r. r.id) rows [])
      → Occurs e.1 tables.users × (e.1.id ≡ e.0)
  row_known ids rows selects e o =
      let l = lookup-Occurs e (fill (λ r. r.id) rows []) (fill-IsDict (λ r. r.id) rows [] tt) o in
      elim (fill-Holds (λ r. r.id) rows e.0) [
        | inl (listed, (r, lr, (or, own))) ↦
            let same : r ≡ e.1 = ground (arith, l, lr) in
            (
              subst (λ x. Occurs x tables.users) same ((selects r).0 or).0,
              ap (λ x. x.id) (sym same) ∙ own,
            )
        | inr (absent, lr) ↦ ground (arith, l, lr)
      ]

  make_user_lem :
      (keys : List ℕ) (assignments : Dict (List ℕ)) (teams : Dict Team)
      → Holds (Groups (λ r. r.user_id) (λ r. r.team_id) tables.assignments) keys assignments
      → Holds (IsTeam tables) (concat (dict_values assignments)) teams
      → (e : ℕ × UserRow) → elem e.0 keys ≡ true
      → Occurs e.1 tables.users × (e.1.id ≡ e.0)
      → (u : User) × (make_user db assignments teams e ≡ returns u) × IsUser tables e.0 u
  unfolding make_user
  make_user_lem keys assignments teams ha ht e asked known =
      let (ts, lt, groups) =
        Holds-item (Groups (λ r. r.user_id) (λ r. r.team_id) tables.assignments) keys assignments ha
          e.0 asked in
      let (us, eu, from, to) =
        collect_items_lem (IsTeam tables) (concat (dict_values assignments)) ts teams ht (λ k o.
          elem-concat k ts (dict_values assignments) (dict_values-Occurs e.0 ts assignments lt)
            o) in
      (
        record { row = e.1; teams = us },
        rw (get_item_found e.0 assignments ts lt, ◌>>=◌, eu),
        (
          known.0,
          known.1,
          (
            (λ t o. let (id, o', r) = from t o in (id, (groups id).0 o', r)),
            (λ id a. to id ((groups id).1 a)),
          ),
        ),
      )

  -- The users of the rows that were found, before `validate_ids`.
  pub get_users_found :
      (id : ℕ) (ids : List ℕ)
      → (d : Dict User) × (get_users db (id ∷ ids)
          ≡ (validate_ids user_context (db.set_order (id ∷ ids)) (dict_keys d) >> returns d))
        × Holds (IsUser tables) (map (λ r. r.id) (db.users_where (db.set_order (id ∷ ids)))) d
  unfolding get_users
  get_users_found id ids =
      let asked = db.set_order (id ∷ ids) in
      let rows = db.users_where asked in
      let found = fill (λ r. r.id) rows [] in
      let keys = dict_keys found in
      let once = fill-IsDict (λ r. r.id) rows [] tt in
      let (assignments, ea, ha) = get_assignments-Holds db tables answers keys in
      let (teams, et, ht, _) =
        get_teams-Holds db tables answers refs (concat (dict_values assignments))
          (assigned_present keys assignments ha (get_assignments-IsDict keys assignments ea)) in
      let (d, e, h) =
        assemble-Holds (λ e. e.0) (IsUser tables) (make_user db assignments teams) found
          (λ e o.
            make_user_lem keys assignments teams ha ht e (Occurs-elem-dict_keys e found o)
              (row_known asked rows (answers.of_users asked) e o)) in
      (
        d,
        rw (make_call_open db tables answers rows, ◌>>=◌, ea, et, e),
        Holds-same (IsUser tables) (map (λ e. e.0) found) (map (λ r. r.id) rows) d
            (λ k.
              ap (elem k) (map-keys found)
              ∙ Holds-keys (λ k r. Occurs r rows × (r.id ≡ k)) (map (λ r. r.id) rows) found
                  (fill-Holds (λ r. r.id) rows) k)
            h,
      )
