-- ===== src/Database/Assembly.antt =====
-- Companies, permissions, assignments and teams as PostgreSQLClient of Server/Content/postgresql.py puts
-- them together, against the tables.
use cpy_q.Prelude.{
  ℕ, ◌≡◌, refl, sym, ap, ◌∙◌, inl, inr, true, false, List, [], ◌∷◌, map, elem, Occurs, elem-Occurs,
  Occurs-elem, Bool-cases,
}
use cpy_q.Prelude.Dict.{Dict, lookup}
use cpy_q.Prelude.Raises.{Raises, returns, ◌>>=◌}
use cpy_q.Database.Rows.{
  Context, company_context, team_context, DatabaseError, validate_ids, dict_keys, fill, assemble,
}
use cpy_q.Database.{
  make_call, CompanyRow, TeamRow, PermissionRow, Team, Database, get_companies, get_permissions,
  get_assignments, make_team, get_teams,
}
use cpy_q.Database.Lookups.{Holds, get_item_found, fill_cases, assemble_lem}
use cpy_q.Database.Tables.{Tables, Selects, Answers, HasReferences, Groups, IsCompany, IsTeam}
use cpy_q.Database.Distinct.{IsDict, assemble-IsDict}
use cpy_q.Database.Groups.{
  validate_ids_found, Selects-elem, Holds-same, Holds-item, Holds-keys, grouped-Holds,
}

-- A dictionary filled from rows has exactly their keys, each with one of the rows.
pub fill-Holds :
    {Row : Type 0} (column : Row → ℕ) (rows : List Row)
    → Holds (λ k r. Occurs r rows × (column r ≡ k)) (map column rows) (fill column rows [])
unfolding lookup
fill-Holds column rows k = elim (fill_cases column k rows []) [
  | inl (listed, r, o, own, l) ↦ inl (listed, (r, l, (o, own)))
  | inr (absent, l) ↦ inr (absent, l)
]

pub assemble-Holds :
    {Row Value : Type 0} (column : Row → ℕ) (R : ℕ → Value → Type 0)
    (make : Row → Raises DatabaseError Value) (rows : List Row)
    → ((r : Row) → Occurs r rows → (v : Value) × (make r ≡ returns v) × R (column r) v)
    → (d : Dict Value) × (assemble column make rows [] ≡ returns d) × Holds R (map column rows) d
unfolding lookup
assemble-Holds column R make rows made = assemble_lem column R make rows [] made

-- `validate_ids` of the keys of a dictionary that has them all.
pub validate_ids-Holds :
    {Value : Type 0} (R : ℕ → Value → Type 0) (context : Context) (ids : List ℕ) (d : Dict Value)
    → Holds R ids d
    → validate_ids context ids (dict_keys d) ≡ returns tt
validate_ids-Holds R context ids d h =
    validate_ids_found context ids (dict_keys d) (λ k asked. Holds-keys R ids d h k ∙ asked)

pub empty-Holds : {Value : Type 0} (R : ℕ → Value → Type 0) → Holds R [] []
unfolding lookup
empty-Holds R k = inr (refl, refl)

module _ (db : Database) (tables : Tables) (answers : Answers db tables) where
  pub make_call_open : {A : Type 0} (a : A) → make_call db.pool a ≡ returns a
  unfolding make_call
  make_call_open a = rw answers.connected

  -- Every id that was asked for is found where the table has them all.
  pub Selects-all :
      {Row : Type 0} (column : Row → ℕ) (table : List Row) (ids : List ℕ) (rows : List Row)
      → Selects column table (db.set_order ids) rows
      → ((k : ℕ) → elem k ids ≡ true → elem k (map column table) ≡ true)
      → (k : ℕ) → elem k (map column rows) ≡ elem k (db.set_order ids)
  Selects-all column table ids rows selects present k =
      Selects-elem column table (db.set_order ids) rows selects k ∙ elim (Bool-cases (elem k ids)) [
        | inl asked ↦ rw (answers.same_members ids k, asked, present k asked)
        | inr absent ↦ rw (answers.same_members ids k, absent)
      ]

  pub get_companies-Holds :
      (ids : List ℕ)
      → ((k : ℕ) → elem k ids ≡ true → elem k (map (λ c. c.id) tables.companies) ≡ true)
      → (d : Dict CompanyRow) × (get_companies db ids ≡ returns d) × Holds (IsCompany tables) ids d
  unfolding get_companies
  get_companies-Holds [] present = ([], refl, empty-Holds (IsCompany tables))
  get_companies-Holds (id ∷ ids) present =
      let asked = db.set_order (id ∷ ids) in
      let rows = db.companies_where asked in
      let d = fill (λ r. r.id) rows [] in
      let selects = answers.of_companies asked in
      let h : Holds (IsCompany tables) (map (λ r. r.id) rows) d = (λ k.
        elim (fill-Holds (λ r. r.id) rows k) [
          | inl (listed, (r, l, (o, own))) ↦ inl (listed, (r, l, (((selects r).0 o).0, own)))
          | inr (absent, l) ↦ inr (absent, l)
        ]) in
      let whole =
        Holds-same (IsCompany tables) (map (λ r. r.id) rows) asked d
          (Selects-all (λ r. r.id) tables.companies (id ∷ ids) rows selects present) h in
      (
        d,
        rw (
          make_call_open rows,
          ◌>>=◌,
          validate_ids-Holds (IsCompany tables) company_context asked d whole,
        ),
        Holds-same (IsCompany tables) asked (id ∷ ids) d (answers.same_members (id ∷ ids)) whole,
      )

  pub get_permissions-Holds :
      (ids : List ℕ)
      → (d : Dict (List PermissionRow)) × (get_permissions db ids ≡ returns d)
        × Holds (Groups (λ r. r.team_id) (λ r. r) tables.permissions) ids d
  unfolding get_permissions
  get_permissions-Holds [] =
      ([], refl, empty-Holds (Groups (λ r. r.team_id) (λ r. r) tables.permissions))
  get_permissions-Holds (id ∷ ids) =
      let asked = db.set_order (id ∷ ids) in
      let rows = db.permissions_where asked in
      let (d, e, h) =
        grouped-Holds (λ r. r.team_id) (λ r. r) tables.permissions asked rows
          (answers.of_permissions asked) in
      (
        d,
        rw (make_call_open rows, ◌>>=◌, e),
        Holds-same (Groups (λ r. r.team_id) (λ r. r) tables.permissions) asked (id ∷ ids) d
            (answers.same_members (id ∷ ids)) h,
      )

  pub get_assignments-Holds :
      (ids : List ℕ)
      → (d : Dict (List ℕ)) × (get_assignments db false ids ≡ returns d)
        × Holds (Groups (λ r. r.user_id) (λ r. r.team_id) tables.assignments) ids d
  unfolding get_assignments
  get_assignments-Holds [] =
      ([], refl, empty-Holds (Groups (λ r. r.user_id) (λ r. r.team_id) tables.assignments))
  get_assignments-Holds (id ∷ ids) =
      let asked = db.set_order (id ∷ ids) in
      let rows = db.assignments_of_users asked in
      let (d, e, h) =
        grouped-Holds (λ r. r.user_id) (λ r. r.team_id) tables.assignments asked rows
          (answers.of_assignments asked) in
      (
        d,
        rw (make_call_open rows, ◌>>=◌, e),
        Holds-same (Groups (λ r. r.user_id) (λ r. r.team_id) tables.assignments) asked (id ∷ ids) d
            (answers.same_members (id ∷ ids)) h,
      )

  pub make_team_lem :
      (refs : HasReferences tables) (ids : List ℕ) (rows : List TeamRow)
      (companies : Dict CompanyRow) (permissions : Dict (List PermissionRow))
      → Selects (λ r. r.id) tables.teams ids rows
      → Holds (IsCompany tables) (map (λ r. r.company_id) rows) companies
      → Holds (Groups (λ r. r.team_id) (λ r. r) tables.permissions) ids permissions
      → (r : TeamRow) → Occurs r rows
      → (t : Team) × (make_team db companies permissions r ≡ returns t) × IsTeam tables r.id t
  unfolding make_team
  make_team_lem refs ids rows companies permissions selects hc hp r o =
      let (known, asked) = (selects r).0 o in
      let (c, lc, rc) =
        Holds-item (IsCompany tables) (map (λ r. r.company_id) rows) companies hc r.company_id
          (Occurs-elem (λ r. r.company_id) r rows o) in
      let (ps, lp, rp) =
        Holds-item (Groups (λ r. r.team_id) (λ r. r) tables.permissions) ids permissions hp r.id
          asked in
      (
        record { row = r; company = c; permissions = ps },
        rw (
          get_item_found r.company_id companies c lc,
          ◌>>=◌,
          get_item_found r.id permissions ps lp,
        ),
        (known, refl, rc, rp),
      )

  pub get_teams-Holds :
      (refs : HasReferences tables) (ids : List ℕ)
      → ((k : ℕ) → elem k ids ≡ true → elem k (map (λ t. t.id) tables.teams) ≡ true)
      → (d : Dict Team) × (get_teams db ids ≡ returns d) × Holds (IsTeam tables) ids d × IsDict d
  unfolding get_teams
  get_teams-Holds refs [] present = ([], refl, empty-Holds (IsTeam tables), tt)
  get_teams-Holds refs (id ∷ ids) present =
      let asked = db.set_order (id ∷ ids) in
      let rows = db.teams_where asked in
      let selects = answers.of_teams asked in
      let (companies, ec, hc) = get_companies-Holds (map (λ r. r.company_id) rows) (λ k e.
        let (r, o, own) = elem-Occurs (λ r. r.company_id) k rows e in
        ap (λ x. elem x (map (λ c. c.id) tables.companies)) (sym own)
        ∙ refs.company_of r ((selects r).0 o).0) in
      let (permissions, ep, hp) = get_permissions-Holds asked in
      let (d, e, h) =
        assemble-Holds (λ r. r.id) (IsTeam tables) (make_team db companies permissions) rows
          (make_team_lem refs asked rows companies permissions selects hc hp) in
      let whole =
        Holds-same (IsTeam tables) (map (λ r. r.id) rows) asked d
          (Selects-all (λ r. r.id) tables.teams (id ∷ ids) rows selects present) h in
      (
        d,
        rw (
          make_call_open rows,
          ◌>>=◌,
          ec,
          ep,
          e,
          validate_ids-Holds (IsTeam tables) team_context asked d whole,
        ),
        Holds-same (IsTeam tables) asked (id ∷ ids) d (answers.same_members (id ∷ ids)) whole,
        assemble-IsDict (λ r. r.id) (make_team db companies permissions) rows [] d e tt,
      )
