-- ===== src/Database/Tests.antt =====
-- The methods of Server/Content/postgresql.py on a small database.
use cpy_q.Prelude.{
  ℕ, ◌≡◌, refl, ◌⊎◌, true, false, not, ◌&&◌, none, some, List, [], ◌∷◌, map, elem, arith,
}
use cpy_q.Prelude.Dict.{Dict, lookup, insert}
use cpy_q.Prelude.Raises.{returns, raises}
use cpy_q.Database.Rows.{
  user_context, not_found, missing_ids, validate_ids, get_item, get_or, collect_items, add_empties,
  fill, append_all, assemble,
}
use cpy_q.Database.{
  open_pool, connect, disconnect, is_open, make_call, User, Quote, QuoteRow, get_companies,
  get_permissions, get_assignments, make_team, get_teams, make_user, get_users, complete_user,
  get_user, make_quote, complete_quote, get_quote, get_quotes,
}
use cpy_q.Database.Lookups.{Holds}
use cpy_q.Database.Tables.{IsUser, IsQuote}
use cpy_q.Database.Sample.{
  select, first_where, company, team, user, permission, quote, tables, db, answers, refs,
}
use cpy_q.Database.Reading.{get_users-Holds, get_users_missing, get_user-IsUser, get_quote_cases}

abbrev whole_user : User
whole_user = record {
  row = user;
  teams = record { row = team; company = company; permissions = permission ∷ [] } ∷ [];
}

user_read : get_user db 92 ≡ returns (some whole_user)
unfolding get_user complete_user get_teams make_team get_companies get_permissions get_assignments
    make_call is_open validate_ids missing_ids get_item get_or add_empties fill append_all assemble
    select first_where lookup insert
user_read = refl

quotes_read :
    get_quotes db (6 ∷ []) ≡ returns ((6, record { row = quote; owner = whole_user }) ∷ [])
unfolding get_quotes make_quote get_users make_user collect_items get_teams make_team get_companies
    get_permissions get_assignments make_call is_open validate_ids missing_ids get_item add_empties
    fill append_all assemble select lookup insert
quotes_read = refl

-- The owner of quote 7 is no user, and there is no quote 8.
orphan_read : get_quote db 7 ≡ raises (not_found user_context (0 ∷ []))
unfolding get_quote complete_quote get_users get_teams get_assignments make_call is_open
    validate_ids missing_ids fill append_all assemble select first_where lookup insert
orphan_read = refl

disconnected : connect true (disconnect open_pool) ≡ returns open_pool
unfolding connect disconnect is_open
disconnected = refl

get_users-Holds_example :
    (d : Dict User) × (get_users db (5 ∷ 4 ∷ 5 ∷ []) ≡ returns d)
    × Holds (IsUser tables) (5 ∷ 4 ∷ 5 ∷ []) d
get_users-Holds_example =
    get_users-Holds db tables answers refs (5 ∷ 4 ∷ 5 ∷ []) (λ k asked. ground (arith, asked))

get_users_missing_example :
    (missing : List ℕ) × (get_users db (4 ∷ 9 ∷ []) ≡ raises (not_found user_context missing))
    × ((x : ℕ)
        → elem x missing ≡ (elem x (4 ∷ 9 ∷ []) && not (elem x (map (λ u. u.id) tables.users))))
get_users_missing_example = get_users_missing db tables answers refs (4 ∷ 9 ∷ []) 9 refl refl

get_user-IsUser_example :
    ((db.user_named 92 ≡ none) × (get_user db 92 ≡ returns none))
    ⊎ ((u : User) × (get_user db 92 ≡ returns (some u))
        × (u.row.username ≡ 92)
        × IsUser tables u.row.id u)
get_user-IsUser_example = get_user-IsUser db tables answers refs 92

get_quote_cases_example :
    ((db.quote_where 7 ≡ none) × (get_quote db 7 ≡ returns none))
    ⊎ ((q : Quote) × (get_quote db 7 ≡ returns (some q)) × IsQuote tables 7 q)
    ⊎ ((row : QuoteRow) × (missing : List ℕ) × (db.quote_where 7 ≡ some row)
        × (elem row.owner_id (map (λ u. u.id) tables.users) ≡ false)
        × (get_quote db 7 ≡ raises (not_found user_context missing)))
get_quote_cases_example = get_quote_cases db tables answers refs 7
