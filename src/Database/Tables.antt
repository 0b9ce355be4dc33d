-- ===== src/Database/Tables.antt =====
-- The tables behind the queries of Server/Content/postgresql.py, and what a company, a team, a user and a
-- quote are by the tables.
use cpy_q.Prelude.{ℕ, ◌≡◌, true, ◌↔◌, Option, some, List, map, elem, Occurs}
use cpy_q.Database.{
  is_open, CompanyRow, TeamRow, UserRow, PermissionRow, AssignmentRow, QuoteRow, Team, User, Quote,
  Database,
}

pub record Tables : Type 0 where
  pub companies : List CompanyRow
  pub teams : List TeamRow
  pub users : List UserRow
  pub permissions : List PermissionRow
  pub assignments : List AssignmentRow
  pub quotes : List QuoteRow

-- `SELECT * FROM table WHERE column = ANY(ids)`, in any order
abbrev pub Selects : {Row : Type 0} → (Row → ℕ) → List Row → List ℕ → List Row → Type 0
Selects {Row = Row} column table ids rows =
    (r : Row) → Occurs r rows ↔ (Occurs r table × (elem (column r) ids ≡ true))

-- Each row that the query finds is of the table and has the value.
abbrev pub Finds : {Row : Type 0} → (Row → ℕ) → List Row → ℕ → Option Row → Type 0
Finds {Row = Row} column table value found =
    (r : Row) → found ≡ some r → Occurs r table × (column r ≡ value)

-- The pool is open, the queries answer from the tables, and a set has the members that were put in.
pub record Answers (db : Database) (tables : Tables) : Type 0 where
  pub connected : is_open db.pool ≡ true
  pub same_members : (ids : List ℕ) (k : ℕ) → elem k (db.set_order ids) ≡ elem k ids
  pub of_companies :
      (ids : List ℕ) → Selects (λ r. r.id) tables.companies ids (db.companies_where ids)
  pub of_teams : (ids : List ℕ) → Selects (λ r. r.id) tables.teams ids (db.teams_where ids)
  pub of_users : (ids : List ℕ) → Selects (λ r. r.id) tables.users ids (db.users_where ids)
  pub of_quotes : (ids : List ℕ) → Selects (λ r. r.id) tables.quotes ids (db.quotes_where ids)
  pub of_permissions :
      (ids : List ℕ) → Selects (λ r. r.team_id) tables.permissions ids (db.permissions_where ids)
  pub of_assignments :
      (ids : List ℕ) → Selects (λ r. r.user_id) tables.assignments ids (db.assignments_of_users ids)
  pub of_user_named : (name : ℕ) → Finds (λ r. r.username) tables.users name (db.user_named name)
  pub of_quote : (id : ℕ) → Finds (λ r. r.id) tables.quotes id (db.quote_where id)

-- The foreign keys of SQL/Schema: the rows that columns refer to are there.
pub record HasReferences (tables : Tables) : Type 0 where
  pub company_of :
      (r : TeamRow)
      → Occurs r tables.teams
      → elem r.company_id (map (λ c. c.id) tables.companies) ≡ true
  pub team_of :
      (r : AssignmentRow)
      → Occurs r tables.assignments
      → elem r.team_id (map (λ t. t.id) tables.teams) ≡ true

-- The values of the rows whose column is the key.
abbrev pub Groups :
    {Row Value : Type 0} → (Row → ℕ) → (Row → Value) → List Row → ℕ → List Value → Type 0
Groups {Row = Row} {Value = Value} column val table key values =
    (v : Value) → Occurs v values ↔ ((r : Row) × Occurs r table × (column r ≡ key) × (val r ≡ v))

module _ (tables : Tables) where
  abbrev pub IsCompany : ℕ → CompanyRow → Type 0
  IsCompany id c = Occurs c tables.companies × (c.id ≡ id)

  -- A row of the table, with the company that it refers to and all its permissions.
  abbrev pub IsTeam : ℕ → Team → Type 0
  IsTeam id t =
      Occurs t.row tables.teams
      × (t.row.id ≡ id)
      × IsCompany t.row.company_id t.company
      × Groups (λ r. r.team_id) (λ r. r) tables.permissions id t.permissions

  abbrev pub IsAssigned : ℕ → ℕ → Type 0
  IsAssigned user team =
      (a : AssignmentRow) × Occurs a tables.assignments × (a.user_id ≡ user) × (a.team_id ≡ team)

  -- These are the teams that the user is assigned to.
  abbrev pub AreTeams : ℕ → List Team → Type 0
  AreTeams user teams =
      ((t : Team) → Occurs t teams → (id : ℕ) × IsAssigned user id × IsTeam id t)
      × ((id : ℕ) → IsAssigned user id → (t : Team) × Occurs t teams × IsTeam id t)

  -- A row of the table, with the teams that the user is assigned to.
  abbrev pub IsUser : ℕ → User → Type 0
  IsUser id u = Occurs u.row tables.users × (u.row.id ≡ id) × AreTeams id u.teams

  abbrev pub IsQuote : ℕ → Quote → Type 0
  IsQuote id q = Occurs q.row tables.quotes × (q.row.id ≡ id) × IsUser q.row.owner_id q.owner
