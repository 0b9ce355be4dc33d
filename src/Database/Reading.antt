-- ===== src/Database/Reading.antt =====
-- What PostgreSQLClient of Server/Content/postgresql.py reads is what the tables have.
use cpy_q.Prelude.{
  elem-Occurs, Occurs-elem, ℕ, ◌≡◌, refl, sym, ap, subst, ◌∙◌, ◌⊎◌, inl, inr, Bool, true, false,
  not, ◌&&◌, none, some, List, [], ◌∷◌, map, elem, Occurs, arith, Bool-cases, Option-cases,
}
use cpy_q.Prelude.Dict.{Dict}
use cpy_q.Prelude.Raises.{returns, raises, ◌>>=◌}
use cpy_q.Database.Rows.{quote_context, user_context, not_found, dict_keys, dict_values, get_or}
use cpy_q.Database.{
  UserRow, QuoteRow, User, Quote, Database, get_users, complete_user, get_user, make_quote,
  complete_quote, get_quote, get_quotes,
}
use cpy_q.Database.Lookups.{Holds, get_item_found}
use cpy_q.Database.Tables.{Selects, Tables, Answers, HasReferences, Groups, IsTeam, IsUser, IsQuote}
use cpy_q.Database.Groups.{validate_ids_missing, Selects-elem, Holds-same, Holds-item, Holds-keys}
use cpy_q.Database.Distinct.{dict_values-Occurs, Holds-values}
use cpy_q.Database.Assembly.{
  assemble-Holds, validate_ids-Holds, empty-Holds, make_call_open, Selects-all,
  get_assignments-Holds, get_teams-Holds,
}
use cpy_q.Database.Users.{
  get_assignments-IsDict, assigned_present, get_users_found, elem-concat, Occurs-listed,
  listed-Occurs,
}

without : (a b : Bool) → (a && not (a && b)) ≡ (a && not b)
without true b = refl
without false b = refl

only : (a k : ℕ) (ks : List ℕ) → elem k (a ∷ []) ≡ true → elem a ks ≡ true → elem k ks ≡ true
only a k ks asked there = ap (λ x. elem x ks) (ground (arith, asked)) ∙ there

module _ (db : Database) (tables : Tables) (answers : Answers db tables)
    (refs : HasReferences tables) where
  -- Where the pool is open, the queries answer from the tables and foreign keys refer to rows: if every
  -- id asked for is a user's, `get_users` returns a dictionary with exactly these ids, each with a row of
  -- that id and with the teams the user is assigned to, no other and none missing, each team with its
  -- company and all its permissions.
  pub get_users-Holds :
      (ids : List ℕ)
      → ((k : ℕ) → elem k ids ≡ true → elem k (map (λ u. u.id) tables.users) ≡ true)
      → (d : Dict User) × (get_users db ids ≡ returns d) × Holds (IsUser tables) ids d
  unfolding get_users
  get_users-Holds [] present = ([], refl, empty-Holds (IsUser tables))
  get_users-Holds (id ∷ ids) present =
      let asked = db.set_order (id ∷ ids) in
      let rows = db.users_where asked in
      let (d, e, h) = get_users_found db tables answers refs id ids in
      let whole =
        Holds-same (IsUser tables) (map (λ r. r.id) rows) asked d
          (Selects-all db tables answers (λ r. r.id) tables.users (id ∷ ids) rows
            (answers.of_users asked) present)
          h in
      (
        d,
        e ∙ rw (validate_ids-Holds (IsUser tables) user_context asked d whole),
        Holds-same (IsUser tables) asked (id ∷ ids) d (answers.same_members (id ∷ ids)) whole,
      )

  -- Where the pool is open, the queries answer from the tables and foreign keys refer to rows: if an id
  -- asked for is no user's, `get_users` raises `ValueError`, and the ids in it are exactly those that are
  -- no user's.
  pub get_users_missing :
      (ids : List ℕ) (k : ℕ)
      → elem k ids ≡ true
      → elem k (map (λ u. u.id) tables.users) ≡ false
      → (missing : List ℕ) × (get_users db ids ≡ raises (not_found user_context missing))
        × ((x : ℕ) → elem x missing ≡ (elem x ids && not (elem x (map (λ u. u.id) tables.users))))
  get_users_missing [] k asked absent = cc
  get_users_missing (id ∷ ids) k asked absent =
      let order = db.set_order (id ∷ ids) in
      let rows = db.users_where order in
      let (d, e, h) = get_users_found db tables answers refs id ids in
      let keys : (x : ℕ)
          → elem x (dict_keys d) ≡ (elem x (id ∷ ids) && elem x (map (λ u. u.id) tables.users)) =
        (λ x.
          Holds-keys (IsUser tables) (map (λ r. r.id) rows) d h x
          ∙ Selects-elem (λ r. r.id) tables.users order rows (answers.of_users order) x
          ∙ ap (λ b. b && elem x (map (λ u. u.id) tables.users))
              (answers.same_members (id ∷ ids) x)) in
      let (missing, raised, names) =
        validate_ids_missing user_context order (dict_keys d) k
          (answers.same_members (id ∷ ids) k ∙ asked) (keys k ∙ rw (asked, absent)) in
      (
        missing,
        e ∙ rw raised,
        λ x.
            names x
            ∙ ap (λ b. b && not (elem x (dict_keys d))) (answers.same_members (id ∷ ids) x)
            ∙ ap (λ b. elem x (id ∷ ids) && not b) (keys x)
            ∙ without (elem x (id ∷ ids)) (elem x (map (λ u. u.id) tables.users)),
      )

  complete_user_lem :
      (row : UserRow)
      → Occurs row tables.users
      → (u : User) × (complete_user db (some row) ≡ returns (some u))
        × (u.row ≡ row)
        × IsUser tables row.id u
  unfolding complete_user get_or
  complete_user_lem row known =
      let (assignments, ea, ha) = get_assignments-Holds db tables answers (row.id ∷ []) in
      let once = get_assignments-IsDict db tables answers refs (row.id ∷ []) assignments ea in
      let (ts, lt, groups) =
        Holds-item (Groups (λ r. r.user_id) (λ r. r.team_id) tables.assignments) (row.id ∷ [])
          assignments ha row.id (ground arith) in
      let (teams, et, ht, dict) = get_teams-Holds db tables answers refs ts (λ k listed.
        assigned_present db tables answers refs (row.id ∷ []) assignments ha once k (
          elem-concat k ts (dict_values assignments) (dict_values-Occurs row.id ts assignments lt)
            (Occurs-listed k ts listed))) in
      (
        record { row = row; teams = dict_values teams },
        rw (ea, ◌>>=◌, lt, et),
        refl,
        (
          known,
          refl,
          (
            (λ t o.
                let (id, listed, r) = Holds-values (IsTeam tables) ts teams ht dict t o in
                (id, (groups id).0 (Occurs-listed id ts listed), r)),
            (λ id a.
                let (t, l, r) =
                  Holds-item (IsTeam tables) ts teams ht id
                    (listed-Occurs id ts ((groups id).1 a)) in
                (t, dict_values-Occurs id t teams l, r)),
          ),
        ),
      )

  -- Where the pool is open, the queries answer from the tables and foreign keys refer to rows,
  -- `get_user` raises nothing: it returns `None` where the query finds no row,
  -- and else a user of that name, with the teams it is assigned to as `get_users` has them.
  pub get_user-IsUser :
      (username : ℕ)
      → ((db.user_named username ≡ none) × (get_user db username ≡ returns none))
        ⊎ ((u : User) × (get_user db username ≡ returns (some u))
            × (u.row.username ≡ username)
            × IsUser tables u.row.id u)
  unfolding get_user complete_user
  get_user-IsUser username = elim (Option-cases (db.user_named username)) [
    | inl e ↦ inl (e, rw (make_call_open db tables answers (db.user_named username), ◌>>=◌, e))
    | inr (row, e) ↦
        let (known, named) = answers.of_user_named username row e in
        let (u, r, is, h) = complete_user_lem row known in
        inr (
          u,
          rw (make_call_open db tables answers (db.user_named username), ◌>>=◌, e, r),
          ap (λ x. x.username) is ∙ named,
          subst (λ x. IsUser tables x.id u) (sym is) h,
        )
  ]

  -- Where the pool is open, the queries answer from the tables and foreign keys refer to rows,
  -- `get_quote` returns `None` where the query finds no row. Else it returns
  -- the quote of that id with its owner as `get_users` has it, if the owner is a user; if not, which the
  -- schema allows, it raises `ValueError` for the user.
  pub get_quote_cases :
      (quote_id : ℕ)
      → ((db.quote_where quote_id ≡ none) × (get_quote db quote_id ≡ returns none))
        ⊎ ((q : Quote) × (get_quote db quote_id ≡ returns (some q)) × IsQuote tables quote_id q)
        ⊎ ((row : QuoteRow) × (missing : List ℕ) × (db.quote_where quote_id ≡ some row)
            × (elem row.owner_id (map (λ u. u.id) tables.users) ≡ false)
            × (get_quote db quote_id ≡ raises (not_found user_context missing)))
  unfolding get_quote complete_quote make_quote
  get_quote_cases quote_id = elim (Option-cases (db.quote_where quote_id)) [
    | inl e ↦ inl (e, rw (make_call_open db tables answers (db.quote_where quote_id), ◌>>=◌, e))
    | inr (row, e) ↦
        let (known, own) = answers.of_quote quote_id row e in
        let opened = make_call_open db tables answers (db.quote_where quote_id) in
        inr (elim (Bool-cases (elem row.owner_id (map (λ u. u.id) tables.users))) [
          | inl there ↦
              let (d, r, h) =
                get_users-Holds (row.owner_id ∷ [])
                  (λ k asked. only row.owner_id k (map (λ u. u.id) tables.users) asked there) in
              let (u, l, is) =
                Holds-item (IsUser tables) (row.owner_id ∷ []) d h row.owner_id (ground arith) in
              inl (
                record { row = row; owner = u },
                rw (opened, ◌>>=◌, e, r, get_item_found row.owner_id d u l),
                (known, own, is),
              )
          | inr orphan ↦
              let (missing, r, _) =
                get_users_missing (row.owner_id ∷ []) row.owner_id (ground arith) orphan in
              inr (row, missing, e, orphan, rw (opened, ◌>>=◌, e, r))
        ])
  ]

  make_quote_lem :
      (ids : List ℕ) (rows : List QuoteRow) (owners : Dict User)
      → Selects (λ r. r.id) tables.quotes ids rows
      → Holds (IsUser tables) (map (λ r. r.owner_id) rows) owners
      → (r : QuoteRow) → Occurs r rows
      → (q : Quote) × (make_quote db owners r ≡ returns q) × IsQuote tables r.id q
  unfolding make_quote
  make_quote_lem ids rows owners selects h r o =
      let (u, l, is) =
        Holds-item (IsUser tables) (map (λ r. r.owner_id) rows) owners h r.owner_id
          (Occurs-elem (λ r. r.owner_id) r rows o) in
      (
        record { row = r; owner = u },
        rw (get_item_found r.owner_id owners u l),
        (((selects r).0 o).0, refl, is),
      )

  -- Where the pool is open, the queries answer from the tables, foreign keys refer to rows, every id asked for
  -- is a quote's and every quote's owner is a user, `get_quotes` returns a dictionary with exactly these ids, each with its quote and its owner.
  pub get_quotes-Holds :
      (ids : List ℕ)
      → ((k : ℕ) → elem k ids ≡ true → elem k (map (λ q. q.id) tables.quotes) ≡ true)
      → ((r : QuoteRow)
          → Occurs r tables.quotes
          → elem r.owner_id (map (λ u. u.id) tables.users) ≡ true)
      → (d : Dict Quote) × (get_quotes db ids ≡ returns d) × Holds (IsQuote tables) ids d
  unfolding get_quotes
  get_quotes-Holds [] present owned = ([], refl, empty-Holds (IsQuote tables))
  get_quotes-Holds (id ∷ ids) present owned =
      let asked = db.set_order (id ∷ ids) in
      let rows = db.quotes_where asked in
      let selects = answers.of_quotes asked in
      let (owners, eo, ho) = get_users-Holds (map (λ r. r.owner_id) rows) (λ k e.
        let (r, o, own) = elem-Occurs (λ r. r.owner_id) k rows e in
        ap (λ x. elem x (map (λ u. u.id) tables.users)) (sym own) ∙ owned r ((selects r).0 o).0) in
      let (d, e, h) =
        assemble-Holds (λ r. r.id) (IsQuote tables) (make_quote db owners) rows
          (make_quote_lem asked rows owners selects ho) in
      let whole =
        Holds-same (IsQuote tables) (map (λ r. r.id) rows) asked d
          (Selects-all db tables answers (λ r. r.id) tables.quotes (id ∷ ids) rows selects present)
          h in
      (
        d,
        rw (
          make_call_open db tables answers rows,
          ◌>>=◌,
          eo,
          e,
          validate_ids-Holds (IsQuote tables) quote_context asked d whole,
        ),
        Holds-same (IsQuote tables) asked (id ∷ ids) d (answers.same_members (id ∷ ids)) whole,
      )
