-- ===== src/ResourceService.antt =====
-- Server/Content/resource_service.py: the class ResourceService. `load_resource` awaits the database
-- where the cache has no entry; each of its two stretches is a function here.
pub mod Handlers
pub mod Unload
pub mod Race
mod Tests
use cpy_q.Prelude.{ℕ, suc, Bool, true, false, Option, none, some, List, [], ◌∷◌, if◌then◌else◌}
use cpy_q.Prelude.Dict.{Dict, lookup, insert, erase}
use cpy_q.Prelude.Raises.{Raises, returns, raises}
use cpy_q.Access.{PermissionType, preview, view, acquire, User, CompareError, has_permission_from}
use cpy_q.Server.{Resource, Server, set_resource}
use cpy_q.Server.Action.{
  HttpError, id_not_integral, unknown_resource_type, resource_not_found, missing_permission,
  resource_locked, session_bound, resource_not_owned, crash, Action, ◌>>=◌, ◌>>◌,
}
use cpy_q.Resource.{Conflict, make_resource, current_user, is_idle, lock, unlock, ensure_acquired}
use cpy_q.Auth.Sweep.{keys}

-- The part `rtype` of the path: a key of `resource_map`, or not.
pub data ResourceType : Type 0 where
  quote unknown_type : ResourceType

-- The parts of the path; `rid` is `none` where `int` raises `ValueError`.
pub record ResourcePath : Type 0 where
  pub rtype : ResourceType
  pub rid : Option ℕ

-- Where `load_resource` is when it first stops: it has the resource, or awaits the database.
pub data Loading : Type 0 where
  cached : ℕ → Loading
  awaits : ℕ → Loading

unfoldable pub begin_load : ResourcePath → Action Server Loading
begin_load path srv = elim path.rid [
  | none ↦ (raises id_not_integral, srv)
  | some id ↦ elim (lookup id srv.resource_id_to_resource) [
    | some ref ↦ (returns (cached ref), srv)
    | none ↦ elim path.rtype [
      | unknown_type ↦ (raises unknown_resource_type, srv)
      | quote ↦ (returns (awaits id), srv)
    ]
  ]
]

-- The rest of `load_resource`, with what the database returns for the id: the quote's owner, if there
-- is such a quote. `Quote(quote_json)` has the id that was asked for.
unfoldable pub finish_load : ℕ → ℕ → Option User → Action Server ℕ
unfolding make_resource
finish_load now id none srv = (raises resource_not_found, srv)
finish_load now id (some owner) srv = (
  returns srv.next_object,
  record (set_resource srv.next_object (make_resource now id owner) srv) {
    next_object = suc srv.next_object;
    resource_id_to_resource = insert id srv.next_object srv.resource_id_to_resource;
  },
)

-- `load_resource`, where no other task runs during the `await`
unfoldable pub load_resource : (ℕ → Option User) → ℕ → ResourcePath → Action Server ℕ
unfolding begin_load finish_load
load_resource get_quote now path srv = elim (begin_load path srv).0 [
  | raises error ↦ (raises error, srv)
  | returns (cached ref) ↦ (returns ref, srv)
  | returns (awaits id) ↦ finish_load now id (get_quote id) srv
]

-- The identities of the three permissions that `has_permission_from` makes.
pub record Identities : Type 0 where
  pub universal : ℕ
  pub company : ℕ
  pub safe : ℕ

abbrev pub permits : Identities → User → PermissionType → User → Raises CompareError Bool
permits new user type owner = has_permission_from new.universal new.company new.safe user type owner

unfoldable pub permission_check : Identities → User → ℕ → PermissionType → Action Server Unit
permission_check new user resource type srv =
    elim (permits new user type (srv.resources resource).owner) [
      | raises error ↦ (raises crash, srv)
      | returns true ↦ (returns tt, srv)
      | returns false ↦ (raises (missing_permission type), srv)
    ]

-- `convert_conflict`, with the data that the handlers attach
unfoldable pub convert_conflict : Conflict → ℕ → Server → HttpError
convert_conflict Conflict.session_bound resource srv = session_bound
convert_conflict Conflict.resource_locked resource srv = resource_locked (current_user resource srv)
convert_conflict Conflict.resource_not_owned resource srv = resource_not_owned

-- A method of the resource whose conflicts a handler converts.
abbrev pub converted : ℕ → Raises Conflict Unit × Server → Raises HttpError ℕ × Server
converted resource (returns a, srv) = (returns resource, srv)
converted resource (raises error, srv) = (raises (convert_conflict error resource srv), srv)

unfoldable pub acquisition_check : ℕ → ℕ → Action Server ℕ
unfolding ensure_acquired convert_conflict
acquisition_check resource session srv = converted resource (ensure_acquired resource session srv)

-- The handlers `acquire`, `release`, `preview` and `view`, from the line after the resource is loaded;
-- they return the resource that the answer shows. The session is the one of the request, at that time.
unfoldable pub acquire_loaded : Identities → ℕ → ℕ → Action Server ℕ
unfolding permission_check lock convert_conflict
acquire_loaded new resource session srv =
    elim (permission_check new (srv.sessions session).user resource acquire srv).0 [
      | raises error ↦ (raises error, srv)
      | returns a ↦ converted resource (lock resource session srv)
    ]

unfoldable pub release_loaded : ℕ → ℕ → ℕ → Action Server ℕ
unfolding unlock convert_conflict
release_loaded now resource session srv = converted resource (unlock now resource session srv)

unfoldable pub preview_loaded : Identities → ℕ → ℕ → Action Server ℕ
unfolding permission_check
preview_loaded new resource session srv =
    elim (permission_check new (srv.sessions session).user resource preview srv).0 [
      | raises error ↦ (raises error, srv)
      | returns a ↦ (returns resource, srv)
    ]

unfoldable pub view_loaded : Identities → ℕ → ℕ → Action Server ℕ
unfolding permission_check acquisition_check
view_loaded new resource session srv =
    elim (permission_check new (srv.sessions session).user resource view srv).0 [
      | raises error ↦ (raises error, srv)
      | returns a ↦ acquisition_check resource session srv
    ]

-- `task_coro`: one turn of the loop over a copy of the keys, and the loop
unfoldable pub unload : ℕ → ℕ → Server → Server
unload now id srv = elim (lookup id srv.resource_id_to_resource) [
  | none ↦ srv
  | some ref ↦
      if is_idle now srv.config.resource_grace (srv.resources ref)
      then record srv { resource_id_to_resource = erase id srv.resource_id_to_resource }
      else srv
]

unfoldable pub unload_each : ℕ → List ℕ → Server → Server
unload_each now [] srv = srv
unload_each now (id ∷ rest) srv = unload_each now rest (unload now id srv)

unfoldable pub task_coro : ℕ → Server → Server
unfolding unload_each
task_coro now srv = unload_each now (keys srv.resource_id_to_resource) srv
