-- ===== src/Access/Exact.antt =====
-- What the check of Common/user.py refuses to users whose permissions name the required scope
-- itself: `Team.has_permission` looks for the new `Permission` object by identity.
use cpy_q.Prelude.{ℕ, ◌≡◌, refl, ◌≢◌, Bool, true, false, All, All-Occurs, Occurs, arith}
use cpy_q.Prelude.Raises.{Raises, returns}
use cpy_q.Access.{
  PermissionType, PermissionScope, safe, company, universal, null, Permission, Team, User,
  CompareError, has_permission_from,
}
use cpy_q.Access.Scope.{Wider}
use cpy_q.Access.Compare.{BelongsTo}
use cpy_q.Access.Grants.{IsFresh, Covers, Decides}
use cpy_q.Access.Decision.{
  Allowed, by_admin, by_identity, everywhere, in_company, from_above, has_permission_from-Allowed,
}

refuted : (m : Raises CompareError Bool) (Q : Type 0) → Decides m Q → (Q → ⊥) → m ≡ returns false
refuted m Q (true, e, d) no_way = absurd (no_way (d.0 refl))
refuted m Q (false, e, d) no_way = e

-- Each permission of each team fits the predicate.
abbrev pub EachPermission : (Permission → Type 0) → User → Type 0
EachPermission P self = All (λ t. All P t.permissions) self.teams

scope_of :
    (P : Permission → Type 0) (self : User) (t : Team) (p : Permission)
    → EachPermission P self
    → Occurs t self.teams
    → Occurs p t.permissions
    → P p
scope_of P self t p each o o' =
    All-Occurs P p t.permissions (All-Occurs (λ u. All P u.permissions) t self.teams each o) o'

module _ (o₁ o₂ o₃ : ℕ) (self : User) (type : PermissionType) (other : User)
    (f₁ : All (IsFresh o₁) self.teams) (f₂ : All (IsFresh o₂) self.teams)
    (f₃ : All (IsFresh o₃) self.teams) (plain : self.admin ≡ false)
    (apart : self.id ≢ other.id) where
  -- For a user who is no administrator, over another user in none of the same companies, every
  -- request is refused where no permission has the scope `null`, and the identities of the three
  -- permissions that the check makes are new: also to a team that has the permission with the
  -- universal scope.
  pub universal_refused :
      EachPermission (λ p. p.scope ≢ null) self
      → All (λ t. ¬ BelongsTo other t.company) self.teams
      → has_permission_from o₁ o₂ o₃ self type other ≡ returns false
  universal_refused scoped strangers =
      refuted _ _ (has_permission_from-Allowed o₁ o₂ o₃ self type other f₁ f₂ f₃) no_way
    where
      wider_universal : (s : PermissionScope) → s ≢ null → Wider s universal → ⊥
      wider_universal safe h w = omega arith
      wider_universal company h w = omega arith
      wider_universal universal h w = omega arith
      wider_universal null h w = h refl

      stranger : (t : Team) → Occurs t self.teams → BelongsTo other t.company → ⊥
      stranger t o = All-Occurs (λ u. ¬ BelongsTo other u.company) t self.teams strangers o

      no_way : Allowed self type other → ⊥
      no_way (by_admin h) = cc
      no_way (by_identity h) = apart h
      no_way (everywhere (t, o, (p, o', e, w))) =
          wider_universal p.scope (scope_of (λ q. q.scope ≢ null) self t p scoped o o') w
      no_way (in_company (t, o, (b, c))) = stranger t o b
      no_way (from_above (t, o, (b, a, c))) = stranger t o b

  -- A user who is no administrator is refused everything over another user where each permission
  -- has the scope `safe`, and the identities of the three permissions that the check makes are
  -- new: over users of the same company and of a lower team too.
  pub safe_refused :
      EachPermission (λ p. p.scope ≡ safe) self
      → has_permission_from o₁ o₂ o₃ self type other ≡ returns false
  safe_refused scoped =
      refuted _ _ (has_permission_from-Allowed o₁ o₂ o₃ self type other f₁ f₂ f₃) no_way
    where
      narrow : (s required : PermissionScope) → s ≡ safe → required ≢ null → Wider s required → ⊥
      narrow safe safe e h w = omega arith
      narrow safe company e h w = omega arith
      narrow safe universal e h w = omega arith
      narrow safe null e h w = h refl
      narrow other_scope required e h w = cc

      not_covered :
          (t : Team) (s : PermissionScope) → Occurs t self.teams → s ≢ null → Covers t type s → ⊥
      not_covered t s o h (p, o', e, w) =
          narrow p.scope s (scope_of (λ q. q.scope ≡ safe) self t p scoped o o') h w

      no_way : Allowed self type other → ⊥
      no_way (by_admin h) = cc
      no_way (by_identity h) = apart h
      no_way (everywhere (t, o, c)) = not_covered t universal o (λ e. cc) c
      no_way (in_company (t, o, (b, c))) = not_covered t company o (λ e. cc) c
      no_way (from_above (t, o, (b, a, c))) = not_covered t safe o (λ e. cc) c
