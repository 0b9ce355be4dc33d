-- ===== src/ResourceService/Handlers.antt =====
-- The handlers of Server/Content/resource_service.py on all of their branches.
use cpy_q.Prelude.{
  ℕ, ◌≡◌, refl, ◌≢◌, ◌⊎◌, inl, inr, true, false, none, some, All, arith, Bool-cases,
}
use cpy_q.Prelude.Raises.{returns, raises}
use cpy_q.Access.{PermissionType, view, acquire, User}
use cpy_q.Access.Grants.{IsFresh, Decides}
use cpy_q.Access.Decision.{Allowed, has_permission_from-Allowed}
use cpy_q.Server.{Server, set_resource, bind}
use cpy_q.Server.Action.{missing_permission, resource_locked, session_bound, resource_not_owned}
use cpy_q.Resource.{current_user, lock, is_acquired, ensure_acquired}
use cpy_q.ResourceService.{
  Identities, permits, permission_check, convert_conflict, converted, acquisition_check,
  acquire_loaded, view_loaded,
}

-- The identities are of none of the user's permissions.
abbrev pub AreNew : Identities → User → Type 0
AreNew new user =
    All (IsFresh new.universal) user.teams
    × All (IsFresh new.company) user.teams
    × All (IsFresh new.safe) user.teams

permission_check_cases :
    (new : Identities) (user : User) (resource : ℕ) (type : PermissionType) (srv : Server)
    → AreNew new user
    → ((permission_check new user resource type srv ≡ (returns tt, srv))
        × Allowed user type (srv.resources resource).owner)
      ⊎ ((permission_check new user resource type srv ≡ (raises (missing_permission type), srv))
          × ¬ Allowed user type (srv.resources resource).owner)
unfolding permission_check
permission_check_cases new user resource type srv f = go (
    has_permission_from-Allowed new.universal new.company new.safe user type
      (srv.resources resource).owner f.0 f.1 f.2)
  where
    owner : User
    owner = (srv.resources resource).owner

    go :
        Decides (permits new user type owner) (Allowed user type owner)
        → ((permission_check new user resource type srv ≡ (returns tt, srv))
            × Allowed user type owner)
          ⊎ ((permission_check new user resource type srv ≡ (raises (missing_permission type), srv))
              × ¬ Allowed user type owner)
    go (true, e, d) = inl (rw (e, permission_check), d.0 refl)
    go (false, e, d) = inr (rw (e, permission_check), λ a. cc (d.1 a))

module _ (new : Identities) (resource session : ℕ) (srv : Server)
    (f : AreNew new (srv.sessions session).user) where
  lock_cases :
      ((converted resource (lock resource session srv) ≡ (
        returns resource,
        set_resource resource
            (record (srv.resources resource) { session = some session })
            (bind session (srv.resources resource).id srv),
      ))
        × ((srv.sessions session).resource_id ≡ none)
        × ((srv.resources resource).session ≡ none))
      ⊎ (((converted resource (lock resource session srv) ≡ (raises session_bound, srv))
            × ((srv.sessions session).resource_id ≢ none))
          ⊎ ((converted resource (lock resource session srv)
                ≡ (raises (resource_locked (current_user resource srv)), srv))
              × ((srv.sessions session).resource_id ≡ none)
              × ((srv.resources resource).session ≢ none)))
  unfolding lock convert_conflict
  lock_cases = ground arith

  -- `acquire` of a loaded resource, on all of its branches, where the identities of the permissions that
  -- its check makes are new: it succeeds exactly where the session's
  -- user may acquire resources of the owner, the session has none, and nobody holds this one, and
  -- then the two refer to each other; else it changes nothing, and says what is missing, first the
  -- permission, then the session's own resource, then the holder.
  pub acquire_loaded_cases :
      let r = acquire_loaded new resource session srv in
      let user = (srv.sessions session).user in
      let owner = (srv.resources resource).owner in
      ((r ≡ (
        returns resource,
        set_resource resource
            (record (srv.resources resource) { session = some session })
            (bind session (srv.resources resource).id srv),
      ))
        × Allowed user acquire owner
        × ((srv.sessions session).resource_id ≡ none)
        × ((srv.resources resource).session ≡ none))
      ⊎ (((r ≡ (raises (missing_permission acquire), srv)) × ¬ Allowed user acquire owner)
          ⊎ (((r ≡ (raises session_bound, srv))
                × Allowed user acquire owner
                × ((srv.sessions session).resource_id ≢ none))
              ⊎ ((r ≡ (raises (resource_locked (current_user resource srv)), srv))
                  × Allowed user acquire owner
                  × ((srv.sessions session).resource_id ≡ none)
                  × ((srv.resources resource).session ≢ none))))
  unfolding acquire_loaded
  acquire_loaded_cases =
      elim (permission_check_cases new (srv.sessions session).user resource acquire srv f) [
        | inr (e, forbidden) ↦ inr (inl (rw (e, acquire_loaded), forbidden))
        | inl (e, a) ↦ elim lock_cases [
          | inl (e', free, idle) ↦ inl (rw (e, acquire_loaded) e', a, free, idle)
          | inr (inl (e', bound)) ↦ inr (inr (inl (rw (e, acquire_loaded) e', a, bound)))
          | inr (inr (e', free, held)) ↦ inr (inr (inr (rw (e, acquire_loaded) e', a, free, held)))
        ]
      ]

  -- `view` of a loaded resource, where the identities of the permissions that its check makes are new,
  -- shows it exactly to a session that holds it, by the session's id, and
  -- whose user may view resources of the owner; else it is the permission that is missing, or the
  -- resource is not the session's. It changes nothing.
  pub view_loaded_cases :
      let r = view_loaded new resource session srv in
      let user = (srv.sessions session).user in
      let owner = (srv.resources resource).owner in
      ((r ≡ (returns resource, srv))
        × Allowed user view owner
        × (is_acquired resource session srv ≡ true))
      ⊎ (((r ≡ (raises (missing_permission view), srv)) × ¬ Allowed user view owner)
          ⊎ ((r ≡ (raises resource_not_owned, srv))
              × Allowed user view owner
              × (is_acquired resource session srv ≡ false)))
  unfolding view_loaded acquisition_check ensure_acquired convert_conflict
  view_loaded_cases =
      elim (permission_check_cases new (srv.sessions session).user resource view srv f) [
        | inr (e, forbidden) ↦ inr (inl (rw (e, view_loaded), forbidden))
        | inl (e, a) ↦ elim (Bool-cases (is_acquired resource session srv)) [
          | inl mine ↦ inl (rw (e, view_loaded, mine, acquisition_check, ensure_acquired), a, mine)
          | inr other ↦
              inr (inr (rw (e, view_loaded, other, acquisition_check, ensure_acquired), a, other))
        ]
      ]
