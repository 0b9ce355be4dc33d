-- ===== src/Database.antt =====
-- PostgreSQLClient of Server/Content/postgresql.py: its connection pool, and how users, teams and
-- quotes are put together from rows. Columns that are only copied are one number.
pub mod Rows
pub mod Lookups
pub mod Tables
pub mod Groups
pub mod Distinct
pub mod Assembly
pub mod Users
pub mod Reading
mod Sample
mod Tests
use cpy_q.Prelude.{
  ℕ, Bool, true, false, not, Option, none, some, List, [], ◌∷◌, ◌++◌, map, elem, if◌then◌else◌,
}
use cpy_q.Prelude.Dict.{Dict, lookup, insert}
use cpy_q.Prelude.Raises.{Raises, returns, raises, ◌>>=◌, ◌>>◌}
use cpy_q.Database.Rows.{
  DatabaseError, pool_closed, connect_failed, dict_keys, dict_values, concat, get_item, get_or,
  fill, empties, append_all, assemble, collect_items, Context, user_context, team_context,
  company_context, quote_context, validate_ids,
}

-- The attribute `__connection_pool`, and its `is_closing()`
pub data Pool : Type 0 where
  no_pool open_pool closing_pool : Pool

unfoldable pub is_open : Pool → Bool
is_open open_pool = true
is_open _ = false

-- `connect`, and whether `create_pool` succeeds
unfoldable pub connect : Bool → Pool → Raises DatabaseError Pool
unfolding is_open
connect succeeds pool =
    if is_open pool
    then returns pool
    else if succeeds
    then returns open_pool
    else raises connect_failed

-- `disconnect`: an exception of `close` is logged, and the pool is gone all the same.
unfoldable pub disconnect : Pool → Pool
unfolding is_open
disconnect pool = if is_open pool then no_pool else pool

-- `make_call`, of what the connection answers
unfoldable pub make_call : {A : Type 0} → Pool → A → Raises DatabaseError A
unfolding is_open
make_call pool answer = if is_open pool then returns answer else raises pool_closed

pub record CompanyRow : Type 0 where
  pub id : ℕ
  pub columns : ℕ

pub record TeamRow : Type 0 where
  pub id : ℕ
  pub company_id : ℕ
  pub columns : ℕ

pub record UserRow : Type 0 where
  pub id : ℕ
  pub username : ℕ
  pub columns : ℕ

pub record PermissionRow : Type 0 where
  pub team_id : ℕ
  pub columns : ℕ

pub record AssignmentRow : Type 0 where
  pub user_id : ℕ
  pub team_id : ℕ

-- A NULL of `owner_id`, which the schema allows, is a number that no user has.
pub record QuoteRow : Type 0 where
  pub id : ℕ
  pub owner_id : ℕ
  pub columns : ℕ

-- What the methods return: the row, with what they add to it.
pub record Team : Type 0 where
  pub row : TeamRow
  pub company : CompanyRow
  pub permissions : List PermissionRow

pub record User : Type 0 where
  pub row : UserRow
  pub teams : List Team

pub record Quote : Type 0 where
  pub row : QuoteRow
  pub owner : User

-- What the queries answer during one call of a method, which asks each of them at most once, and the
-- order in which a set of numbers is iterated.
pub record Database : Type 0 where
  pub pool : Pool
  pub set_order : List ℕ → List ℕ
  pub user_named : ℕ → Option UserRow
  pub users_where : List ℕ → List UserRow
  pub teams_where : List ℕ → List TeamRow
  pub companies_where : List ℕ → List CompanyRow
  pub permissions_where : List ℕ → List PermissionRow
  pub assignments_of_users : List ℕ → List AssignmentRow
  pub assignments_of_teams : List ℕ → List AssignmentRow
  pub quote_where : ℕ → Option QuoteRow
  pub quotes_where : List ℕ → List QuoteRow

module _ (db : Database) where
  -- `tuple(set(ids))`
  abbrev pub deduplicate : List ℕ → List ℕ
  deduplicate ids = db.set_order ids

  unfoldable pub get_companies : List ℕ → Raises DatabaseError (Dict CompanyRow)
  unfolding make_call
  get_companies [] = returns []
  get_companies (id ∷ ids) =
      make_call db.pool (db.companies_where (deduplicate (id ∷ ids))) >>= λ rows.
      validate_ids company_context (deduplicate (id ∷ ids)) (dict_keys (fill (λ r. r.id) rows []))
      >> returns (fill (λ r. r.id) rows [])

  unfoldable pub get_permissions : List ℕ → Raises DatabaseError (Dict (List PermissionRow))
  unfolding make_call
  get_permissions [] = returns []
  get_permissions (id ∷ ids) =
      make_call db.pool (db.permissions_where (deduplicate (id ∷ ids))) >>= λ rows.
      append_all (λ r. r.team_id) (λ r. r) rows (empties (deduplicate (id ∷ ids)))

  -- The team ids of each user, or with `inverse` the user ids of each team
  unfoldable pub get_assignments : Bool → List ℕ → Raises DatabaseError (Dict (List ℕ))
  unfolding make_call
  get_assignments inverse [] = returns []
  get_assignments false (id ∷ ids) =
      make_call db.pool (db.assignments_of_users (deduplicate (id ∷ ids))) >>= λ rows.
      append_all (λ r. r.user_id) (λ r. r.team_id) rows (empties (deduplicate (id ∷ ids)))
  get_assignments true (id ∷ ids) =
      make_call db.pool (db.assignments_of_teams (deduplicate (id ∷ ids))) >>= λ rows.
      append_all (λ r. r.team_id) (λ r. r.user_id) rows (empties (deduplicate (id ∷ ids)))

  -- `json | {"company": company} | {"permissions": perms}`
  unfoldable pub make_team :
      Dict CompanyRow → Dict (List PermissionRow) → TeamRow → Raises DatabaseError Team
  make_team companies permissions row = get_item row.company_id companies >>= λ company.
      get_item row.id permissions >>= λ perms.
      returns (record { row = row; company = company; permissions = perms })

  -- `gather` runs its two parts side by side; where both raise, the exception here is the first one's.
  unfoldable pub get_teams : List ℕ → Raises DatabaseError (Dict Team)
  unfolding make_call
  get_teams [] = returns []
  get_teams (id ∷ ids) = make_call db.pool (db.teams_where (deduplicate (id ∷ ids))) >>= λ rows.
      get_companies (map (λ r. r.company_id) rows) >>= λ companies.
      get_permissions (deduplicate (id ∷ ids)) >>= λ permissions.
      assemble (λ r. r.id) (make_team companies permissions) rows [] >>= λ teams.
      validate_ids team_context (deduplicate (id ∷ ids)) (dict_keys teams) >> returns teams

  -- `users[user_id]["teams"] = user_teams`
  unfoldable pub make_user : Dict (List ℕ) → Dict Team → ℕ × UserRow → Raises DatabaseError User
  make_user assignments teams entry = get_item entry.0 assignments >>= λ team_ids.
      collect_items team_ids teams >>= λ user_teams.
      returns (record { row = entry.1; teams = user_teams })

  unfoldable pub get_users : List ℕ → Raises DatabaseError (Dict User)
  unfolding make_call
  get_users [] = returns []
  get_users (id ∷ ids) = make_call db.pool (db.users_where (deduplicate (id ∷ ids))) >>= λ rows.
      get_assignments false (dict_keys (fill (λ r. r.id) rows [])) >>= λ assignments.
      get_teams (concat (dict_values assignments)) >>= λ teams.
      assemble (λ e. e.0) (make_user assignments teams) (fill (λ r. r.id) rows []) [] >>= λ users.
      validate_ids user_context (deduplicate (id ∷ ids)) (dict_keys users) >> returns users

  -- The rest of `get_user`, of the row that the query found
  unfoldable pub complete_user : Option UserRow → Raises DatabaseError (Option User)
  complete_user none = returns none
  complete_user (some row) = get_assignments false (row.id ∷ []) >>= λ team_assignments.
      get_teams (get_or [] row.id team_assignments) >>= λ teams.
      returns (some (record { row = row; teams = dict_values teams }))

  unfoldable pub get_user : ℕ → Raises DatabaseError (Option User)
  unfolding make_call
  get_user username = make_call db.pool (db.user_named username) >>= complete_user

  -- `quote | {"owner": owner}`
  unfoldable pub make_quote : Dict User → QuoteRow → Raises DatabaseError Quote
  make_quote owners row =
      get_item row.owner_id owners >>= λ owner. returns (record { row = row; owner = owner })

  -- The rest of `get_quote`, of the row that the query found
  unfoldable pub complete_quote : Option QuoteRow → Raises DatabaseError (Option Quote)
  complete_quote none = returns none
  complete_quote (some row) = get_users (row.owner_id ∷ []) >>= λ owners.
      make_quote owners row >>= λ quote. returns (some quote)

  unfoldable pub get_quote : ℕ → Raises DatabaseError (Option Quote)
  unfolding make_call
  get_quote quote_id = make_call db.pool (db.quote_where quote_id) >>= complete_quote

  unfoldable pub get_quotes : List ℕ → Raises DatabaseError (Dict Quote)
  unfolding make_call
  get_quotes [] = returns []
  get_quotes (id ∷ ids) = make_call db.pool (db.quotes_where (deduplicate (id ∷ ids))) >>= λ rows.
      get_users (map (λ r. r.owner_id) rows) >>= λ owners.
      assemble (λ r. r.id) (make_quote owners) rows [] >>= λ quotes.
      validate_ids quote_context (deduplicate (id ∷ ids)) (dict_keys quotes) >> returns quotes
