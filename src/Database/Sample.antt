-- ===== src/Database/Sample.antt =====
-- A database with two users, two teams of one company and two quotes, for the tests of the model of
-- Server/Content/postgresql.py.
use cpy_q.Prelude.{
  ℕ, ◌≡◌, refl, sym, ap, subst, ◌∙◌, inl, inr, Option, none, some, List, [], ◌∷◌, elem, Occurs,
  arith, ◌==◌, if◌then◌else◌, Bool-cases,
}
use cpy_q.Database.{
  open_pool, is_open, CompanyRow, TeamRow, UserRow, PermissionRow, QuoteRow, Database,
}
use cpy_q.Database.Tables.{Tables, Selects, Finds, Answers, HasReferences}

module _ {Row : Type 0} (column : Row → ℕ) where
  unfoldable pub select : List ℕ → List Row → List Row
  select ids [] = []
  select ids (row ∷ rows) =
      let rest = select ids rows in if elem (column row) ids then row ∷ rest else rest

  unfoldable pub first_where : ℕ → List Row → Option Row
  first_where value [] = none
  first_where value (row ∷ rows) =
      let rest = first_where value rows in if value == column row then some row else rest

  pub select-Selects :
      (ids : List ℕ) (table : List Row) → Selects column table ids (select ids table)
  unfolding select
  select-Selects ids [] r = ((λ o. elim o [ ]), (λ o. elim o.0 [ ]))
  select-Selects ids (row ∷ rows) r = elim (Bool-cases (elem (column row) ids)) [
    | inl asked ↦
        let e : select ids (row ∷ rows) ≡ row ∷ select ids rows = ground (arith, asked) in
        (
          (λ o. elim (subst (Occurs r) e o) [
            | inl is ↦ (inl is, ap (λ x. elem (column x) ids) is ∙ asked)
            | inr o' ↦ let (k, a) = (select-Selects ids rows r).0 o' in (inr k, a)
          ]),
          (λ s. subst (Occurs r) (sym e) (elim s.0 [
            | inl is ↦ inl is
            | inr k ↦ inr ((select-Selects ids rows r).1 (k, s.1))
          ])),
        )
    | inr absent ↦
        let e : select ids (row ∷ rows) ≡ select ids rows = ground (arith, absent) in
        (
          (λ o. let (k, a) = (select-Selects ids rows r).0 (subst (Occurs r) e o) in (inr k, a)),
          (λ s. subst (Occurs r) (sym e) (elim s.0 [
            | inl is ↦ ground (arith, absent, s.1, ap (λ x. elem (column x) ids) is)
            | inr k ↦ (select-Selects ids rows r).1 (k, s.1)
          ])),
        )
  ]

  pub first_where-Finds :
      (value : ℕ) (table : List Row) → Finds column table value (first_where value table)
  unfolding first_where
  first_where-Finds value [] r h = cc
  first_where-Finds value (row ∷ rows) r h = elim (Bool-cases (value == column row)) [
    | inl own ↦
        let is : row ≡ r = ground (arith, own, h) in
        (inl (sym is), ap column (sym is) ∙ ground (arith, own))
    | inr other ↦
        let (o, e) = first_where-Finds value rows r (ground (arith, other, h)) in (inr o, e)
  ]

abbrev pub company : CompanyRow
company = record { id = 1; columns = 90 }

abbrev pub team : TeamRow
team = record { id = 2; company_id = 1; columns = 91 }

abbrev pub user : UserRow
user = record { id = 4; username = 92; columns = 93 }

abbrev pub other_user : UserRow
other_user = record { id = 5; username = 94; columns = 95 }

abbrev pub permission : PermissionRow
permission = record { team_id = 2; columns = 96 }

abbrev pub quote : QuoteRow
quote = record { id = 6; owner_id = 4; columns = 97 }

-- Its owner is no user.
abbrev pub orphan : QuoteRow
orphan = record { id = 7; owner_id = 0; columns = 98 }

abbrev pub tables : Tables
tables = record {
  companies = company ∷ [];
  teams = team ∷ record { id = 3; company_id = 1; columns = 99 } ∷ [];
  users = user ∷ other_user ∷ [];
  permissions = permission ∷ [];
  assignments = record { user_id = 4; team_id = 2 } ∷ [];
  quotes = quote ∷ orphan ∷ [];
}

abbrev pub db : Database
db = record {
  pool = open_pool;
  set_order = λ ids. ids;
  user_named = λ name. first_where (λ r. r.username) name tables.users;
  users_where = λ ids. select (λ r. r.id) ids tables.users;
  teams_where = λ ids. select (λ r. r.id) ids tables.teams;
  companies_where = λ ids. select (λ r. r.id) ids tables.companies;
  permissions_where = λ ids. select (λ r. r.team_id) ids tables.permissions;
  assignments_of_users = λ ids. select (λ r. r.user_id) ids tables.assignments;
  assignments_of_teams = λ ids. select (λ r. r.team_id) ids tables.assignments;
  quote_where = λ id. first_where (λ r. r.id) id tables.quotes;
  quotes_where = λ ids. select (λ r. r.id) ids tables.quotes;
}

pub answers : Answers db tables
unfolding is_open
answers = record {
  connected = refl;
  same_members = λ ids k. refl;
  of_companies = λ ids. select-Selects (λ r. r.id) ids tables.companies;
  of_teams = λ ids. select-Selects (λ r. r.id) ids tables.teams;
  of_users = λ ids. select-Selects (λ r. r.id) ids tables.users;
  of_quotes = λ ids. select-Selects (λ r. r.id) ids tables.quotes;
  of_permissions = λ ids. select-Selects (λ r. r.team_id) ids tables.permissions;
  of_assignments = λ ids. select-Selects (λ r. r.user_id) ids tables.assignments;
  of_user_named = λ name. first_where-Finds (λ r. r.username) name tables.users;
  of_quote = λ id. first_where-Finds (λ r. r.id) id tables.quotes;
}

pub refs : HasReferences tables
refs = record {
  company_of = λ r o. elim o [
    | inl is ↦ ap (λ x. elem x.company_id (1 ∷ [])) is
    | inr (inl is) ↦ ap (λ x. elem x.company_id (1 ∷ [])) is
    | inr (inr o') ↦ elim o' [ ]
  ];
  team_of =
      λ r o. elim o [ inl is ↦ ap (λ x. elem x.team_id (2 ∷ 3 ∷ [])) is | inr o' ↦ elim o' [ ] ];
}
