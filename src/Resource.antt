-- ===== src/Resource.antt =====
-- Server/Content/resource.py: the methods of the class Resource, on the resource object and the
-- session object under two references. Sessions are equal when their ids are.
pub mod Linked
pub mod Copies
mod Tests
use cpy_q.Prelude.{
  ℕ, ◌+◌, Bool, true, false, not, ◌&&◌, ◌||◌, Option, none, some, is_some, ltb, ◌==◌, if◌then◌else◌,
}
use cpy_q.Prelude.Raises.{Raises, returns, raises}
use cpy_q.Access.{User}
use cpy_q.Server.{Session, Resource, Server, bound, set_resource, bind, unbind, update}

-- `SessionBound`, `ResourceLocked`, `ResourceNotOwned` of Common/errors.py
pub data Conflict : Type 0 where
  session_bound resource_locked resource_not_owned : Conflict

abbrev pub locked : Resource → Bool
locked resource = is_some resource.session

-- `Resource(item)`: a new object, of which `__reset__` sets the rest
unfoldable pub make_resource : ℕ → ℕ → User → Resource
make_resource now id owner = record { id = id; owner = owner; last_active = now; session = none }

unfoldable pub reset : ℕ → Resource → Resource
reset now resource = record resource { last_active = now; session = none }

unfoldable pub current_user : ℕ → Server → Option User
current_user resource srv = elim (srv.resources resource).session [
  | none ↦ none
  | some holder ↦ some (srv.sessions holder).user
]

unfoldable pub is_idle : ℕ → ℕ → Resource → Bool
is_idle now grace resource = not (locked resource) && ltb (resource.last_active + grace) now

unfoldable pub lock : ℕ → ℕ → Server → Raises Conflict Unit × Server
lock resource session srv =
    if bound (srv.sessions session)
    then (raises session_bound, srv)
    else if locked (srv.resources resource)
    then (raises resource_locked, srv)
    else (
      returns tt,
      set_resource resource (record (srv.resources resource) { session = some session })
          (bind session (srv.resources resource).id srv),
    )

-- `not self.locked or session != self.__session`
unfoldable pub is_acquired : ℕ → ℕ → Server → Bool
is_acquired resource session srv = elim (srv.resources resource).session [
  | none ↦ false
  | some holder ↦ (srv.sessions session).id == (srv.sessions holder).id
]

unfoldable pub ensure_acquired : ℕ → ℕ → Server → Raises Conflict Unit × Server
unfolding is_acquired
ensure_acquired resource session srv =
    if is_acquired resource session srv then (returns tt, srv) else (raises resource_not_owned, srv)

unfoldable pub unlock : ℕ → ℕ → ℕ → Server → Raises Conflict Unit × Server
unfolding is_acquired reset
unlock now resource session srv =
    if is_acquired resource session srv
    then (
      returns tt,
      set_resource resource (reset now (srv.resources resource)) (unbind session srv),
    )
    else (raises resource_not_owned, srv)
