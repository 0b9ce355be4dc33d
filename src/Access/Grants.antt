-- ===== src/Access/Grants.antt =====
-- When a team's permissions cover a required type and scope (`Team.has_permission` of
-- Common/team.py), and when a call of `any` over teams decides a statement.
use cpy_q.Prelude.{
  ℕ, ◌≡◌, refl, ap, subst, ◌↔◌, inl, inr, Bool, true, false, ◌&&◌, List, [], ◌∷◌, map, elem, Occurs,
  any-Occurs, Occurs-any, arith,
}
use cpy_q.Prelude.Raises.{Raises, returns}
use cpy_q.Access.{
  PermissionType, PermissionScope, Permission, new_permission, Team, CompareError, type_eq,
  scope_gt, has_permission, any_raises,
}
use cpy_q.Access.Scope.{Wider, scope_gt-Wider, Wider-scope_gt, type_eq-eq, type_eq_refl}

-- The team holds a permission of the type whose scope is strictly wider than the one required.
abbrev pub Covers : Team → PermissionType → PermissionScope → Type 0
Covers team type scope =
    (p : Permission) × Occurs p team.permissions × (p.type ≡ type) × Wider p.scope scope

-- The identity is of none of the team's permission objects.
abbrev pub IsFresh : ℕ → Team → Type 0
IsFresh object team = elem object (map (λ perm. perm.object) team.permissions) ≡ false

and-left : (a b : Bool) → (a && b) ≡ true → a ≡ true
and-left a b h = ground arith

and-right : (a b : Bool) → (a && b) ≡ true → b ≡ true
and-right a b h = ground arith

has_permission-Covers :
    (object : ℕ) (team : Team) (type : PermissionType) (scope : PermissionScope)
    → IsFresh object team
    → has_permission team (new_permission object type scope) ≡ true
    → Covers team type scope
unfolding has_permission
has_permission-Covers object team type scope fresh h =
    let (p, o, e) =
      any-Occurs (λ perm. type_eq perm.type type && scope_gt perm.scope scope) team.permissions
        (rw fresh at h) in
    (p, o, type_eq-eq p.type type (and-left _ _ e), scope_gt-Wider p.scope scope (and-right _ _ e))

Covers-has_permission :
    (object : ℕ) (team : Team) (type : PermissionType) (scope : PermissionScope)
    → Covers team type scope
    → has_permission team (new_permission object type scope) ≡ true
unfolding has_permission
Covers-has_permission object team type scope (p, o, e, w) = ground (
  arith,
  Occurs-any (λ perm. type_eq perm.type type && scope_gt perm.scope scope) p team.permissions o
      (ground
        (arith, ap (λ t. type_eq t type) e, type_eq_refl type, Wider-scope_gt p.scope scope w)),
)

-- A newly made permission is granted exactly when the team holds one of the type with a strictly
-- wider scope: one of the very same scope is another object, and does not count.
pub has_permission_iff :
    (object : ℕ) (team : Team) (type : PermissionType) (scope : PermissionScope)
    → IsFresh object team
    → (has_permission team (new_permission object type scope) ≡ true) ↔ Covers team type scope
has_permission_iff object team type scope fresh = (
  has_permission-Covers object team type scope fresh,
  Covers-has_permission object team type scope,
)

-- The call raises nothing, and returns whether the statement holds.
abbrev pub Decides : Raises CompareError Bool → Type 0 → Type 0
Decides m Q = (b : Bool) × (m ≡ returns b) × ((b ≡ true) ↔ Q)

-- Some team of the list is such.
abbrev pub Some : (Team → Type 0) → List Team → Type 0
Some Q teams = (t : Team) × Occurs t teams × Q t

any_raises-found :
    (test : Team → Raises CompareError Bool) (Q : Team → Type 0) (x : Team) (xs : List Team)
    → Decides (test x) (Q x)
    → Decides (any_raises test xs) (Some Q xs)
    → Decides (any_raises test (x ∷ xs)) (Some Q (x ∷ xs))
unfolding any_raises
any_raises-found test Q x xs (true, e, q) rest =
    (true, rw (e, any_raises), ((λ h. (x, inl refl, q.0 refl)), λ h. refl))
any_raises-found test Q x xs (false, e, q) (b, e', q') = (b, rw (e, any_raises) e', (to, from))
  where
    to : b ≡ true → Some Q (x ∷ xs)
    to h = let (t, o, holds) = q'.0 h in (t, inr o, holds)

    from : Some Q (x ∷ xs) → b ≡ true
    from (t, inl same, holds) = cc (q.1 (subst Q same holds))
    from (t, inr o, holds) = q'.1 (t, o, holds)

pub any_raises-Decides :
    (test : Team → Raises CompareError Bool) (Q : Team → Type 0) (xs : List Team)
    → ((t : Team) → Occurs t xs → Decides (test t) (Q t))
    → Decides (any_raises test xs) (Some Q xs)
unfolding any_raises
any_raises-Decides test Q [] each = (false, refl, ((λ h. cc), λ s. elim (s.1) [ ]))
any_raises-Decides test Q (x ∷ xs) each =
    any_raises-found test Q x xs (each x (inl refl))
      (any_raises-Decides test Q xs (λ t o. each t (inr o)))
