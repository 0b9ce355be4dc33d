-- ===== src/Access/Tests.antt =====
-- `has_permission_from` of Common/user.py at concrete users.
use cpy_q.Prelude.{◌≡◌, refl, ◌⊎◌, true, false, [], ◌∷◌, arith, inl, inr}
use cpy_q.Prelude.Raises.{returns}
use cpy_q.Access.{
  acquire, safe, company, universal, Permission, new_permission, Team, User, type_eq, scope_gt,
  team_gt, team_ge, has_permission, companies, teams_in, max_team, highest_team_in, any_raises,
  intersection, safe_test, has_permission_from,
}
use cpy_q.Access.Grants.{Decides}
use cpy_q.Access.Decision.{Allowed, has_permission_from-Allowed}
use cpy_q.Access.Exact.{universal_refused}

-- A team of company 1 at index 5 with one permission to acquire.
abbrev managers : Permission → Team
managers permission = record {
  id = 11;
  hierarchy_index = 5;
  company = 1;
  permissions = permission ∷ [];
}

abbrev clerks : Team
clerks = record { id = 21; hierarchy_index = 2; company = 1; permissions = [] }

abbrev abroad : Team
abroad = record { id = 31; hierarchy_index = 9; company = 2; permissions = [] }

abbrev user_in : Team → User
user_in team = record { id = team.id; teams = team ∷ []; autopilot = false; admin = false }

abbrev manager : User
manager = user_in (managers (new_permission 7 acquire company))

abbrev world_manager : User
world_manager = user_in (managers (new_permission 7 acquire universal))

abbrev careful_manager : User
careful_manager = user_in (managers (new_permission 7 acquire safe))

abbrev clerk : User
clerk = user_in clerks

abbrev foreigner : User
foreigner = user_in abroad

-- With the scope `company` the manager may act on the clerk below, by the last test.
manager_allowed : has_permission_from 100 101 102 manager acquire clerk ≡ returns true
unfolding has_permission_from has_permission companies intersection any_raises safe_test
    highest_team_in teams_in max_team team_gt team_ge type_eq scope_gt
manager_allowed = refl

has_permission_from-Allowed_example :
    Decides (has_permission_from 100 101 102 manager acquire clerk) (Allowed manager acquire clerk)
has_permission_from-Allowed_example =
    has_permission_from-Allowed 100 101 102 manager acquire clerk (refl, tt) (refl, tt) (refl, tt)

universal_refused_example :
    has_permission_from 100 101 102 world_manager acquire foreigner ≡ returns false
universal_refused_example =
    universal_refused 100 101 102 world_manager acquire foreigner (refl, tt) (refl, tt) (refl, tt)
      refl (omega arith) (((λ e. cc), tt), tt) (strangers, tt)
  where
    strangers : ¬ ((u : Team) × ((u ≡ abroad) ⊎ ⊥) × (u.company ≡ 1))
    strangers (u, inl same, e) = ground arith
    strangers (u, inr there, e) = elim there [ ]
