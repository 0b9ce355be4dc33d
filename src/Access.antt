-- ===== src/Access.antt =====
-- Common/permissions.py, Common/company.py, Common/team.py and Common/user.py: who may do what to
-- another user's resources. A frozenset is a list in the order of iteration. Identifiers are only
-- compared. A hierarchy index is an `INT` of the database, counted from the least `INT`.
pub mod Scope
pub mod Compare
pub mod Grants
pub mod Decision
pub mod Exact
mod Tests
use cpy_q.Prelude.{
  ℕ, ◌&&◌, ◌||◌, Bool, true, false, not, Option, none, some, List, [], ◌∷◌, map, any, elem, ltb,
  leb, ◌==◌, if◌then◌else◌,
}
use cpy_q.Prelude.Raises.{Raises, returns, raises, ◌>>=◌}

pub data PermissionType : Type 0 where
  create preview view acquire update generate delete reassign : PermissionType

pub data PermissionScope : Type 0 where
  safe company universal null : PermissionScope

-- `perm.type == permission.type` compares enum members.
abbrev pub type_index : PermissionType → ℕ
type_index create = 0
type_index preview = 1
type_index view = 2
type_index acquire = 3
type_index update = 4
type_index generate = 5
type_index delete = 6
type_index reassign = 7

unfoldable pub type_eq : PermissionType → PermissionType → Bool
type_eq a b = type_index a == type_index b

-- `__rank__`; `null` is not in that dict, and `__check_null__` keeps it from being looked up.
abbrev pub rank : PermissionScope → ℕ
rank safe = 0
rank company = 1
rank universal = 2
rank null = 0

abbrev pub check_null : PermissionScope → PermissionScope → Bool
check_null null other = true
check_null self null = true
check_null self other = false

-- `PermissionScope.__lt__` and `PermissionScope.__gt__`
unfoldable pub scope_lt : PermissionScope → PermissionScope → Bool
scope_lt self other = check_null self other || ltb (rank self) (rank other)

unfoldable pub scope_gt : PermissionScope → PermissionScope → Bool
scope_gt self other = check_null self other || ltb (rank other) (rank self)

-- `Permission` defines no `__eq__`, so two permissions are equal when they are one object: `object`
-- is the object's identity.
pub record Permission : Type 0 where
  pub object : ℕ
  pub type : PermissionType
  pub scope : PermissionScope

-- `Permission.new`, which makes a new object
abbrev pub new_permission : ℕ → PermissionType → PermissionScope → Permission
new_permission object type scope = record { object = object; type = type; scope = scope }

pub record Team : Type 0 where
  pub id : ℕ
  pub hierarchy_index : ℕ
  pub company : ℕ
  pub permissions : List Permission

-- A `User` or a `SelfUser`; `autopilot` and `admin` are read of a `SelfUser` only.
pub record User : Type 0 where
  pub id : ℕ
  pub teams : List Team
  pub autopilot : Bool
  pub admin : Bool

-- What the comparison of two teams may raise.
pub data CompareError : Type 0 where
  type_error runtime_error : CompareError

-- `Team.__comparison_check__` before the comparison of the indices
abbrev pub comparison_check : Team → Team → Bool → Raises CompareError Bool
comparison_check self other result =
    if self.company == other.company then returns result else raises runtime_error

-- `self > other`
unfoldable pub team_gt : Team → Team → Raises CompareError Bool
team_gt self other = comparison_check self other (ltb other.hierarchy_index self.hierarchy_index)

-- `self >= other`, where `other` may be `None`
unfoldable pub team_ge : Team → Option Team → Raises CompareError Bool
team_ge self none = raises type_error
team_ge self (some other) =
    comparison_check self other (leb other.hierarchy_index self.hierarchy_index)

unfoldable pub has_permission : Team → Permission → Bool
has_permission team permission =
    elem permission.object (map (λ perm. perm.object) team.permissions)
    || any (λ perm. type_eq perm.type permission.type && scope_gt perm.scope permission.scope)
        team.permissions

unfoldable pub companies : User → List ℕ
companies user = map (λ team. team.company) user.teams

-- `(team for team in self.teams if team.company == company)`
unfoldable pub teams_in : ℕ → List Team → List Team
teams_in c [] = []
teams_in c (team ∷ teams) =
    let rest = teams_in c teams in if team.company == c then team ∷ rest else rest

-- the builtin `max`: the first of the largest items so far
unfoldable pub max_team : Option Team → List Team → Raises CompareError (Option Team)
max_team best [] = returns best
max_team none (team ∷ teams) = max_team (some team) teams
max_team (some best) (team ∷ teams) =
    team_gt team best >>= λ larger. max_team (some (if larger then team else best)) teams

unfoldable pub highest_team_in : User → ℕ → Raises CompareError (Option Team)
highest_team_in user c = max_team none (teams_in c user.teams)

-- `any(test(x) for x in xs)` where a test may raise
unfoldable pub any_raises : (Team → Raises CompareError Bool) → List Team → Raises CompareError Bool
any_raises test [] = returns false
any_raises test (x ∷ xs) =
    test x >>= λ found. elim found [ true ↦ returns true | false ↦ any_raises test xs ]

-- `self.companies.intersection(other.companies)`
unfoldable pub intersection : List ℕ → List ℕ → List ℕ
intersection [] ys = []
intersection (x ∷ xs) ys = let rest = intersection xs ys in if elem x ys then x ∷ rest else rest

abbrev pub is_empty : List ℕ → Bool
is_empty [] = true
is_empty (x ∷ xs) = false

-- `team.company in shared and team >= other.highest_team_in(team.company)
--   and team.has_permission(safe_perm)`
unfoldable pub safe_test : User → List ℕ → Permission → Team → Raises CompareError Bool
safe_test other shared safe_perm team = elim (elem team.company shared) [
  | false ↦ returns false
  | true ↦ highest_team_in other team.company >>= λ highest.
      team_ge team highest >>= λ above. returns (above && has_permission team safe_perm)
]

-- `SelfUser.has_permission_from`; the numbers are the identities of the three new permissions.
unfoldable pub has_permission_from :
    ℕ → ℕ → ℕ → User → PermissionType → User → Raises CompareError Bool
has_permission_from o₁ o₂ o₃ self type other =
    let shared = intersection (companies self) (companies other) in
    let universal_perm = new_permission o₁ type universal in
    let company_perm = new_permission o₂ type company in
    let safe_perm = new_permission o₃ type safe in
    let last = any_raises (safe_test other shared safe_perm) self.teams in
    if self.admin || self.id == other.id
    then returns true
    else if any (λ team. has_permission team universal_perm) self.teams
    then returns true
    else if is_empty shared
    then returns false
    else if any (λ team. elem team.company shared && has_permission team company_perm) self.teams
    then returns true
    else last
