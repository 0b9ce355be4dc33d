-- ===== src/Auth/Sweep.antt =====
-- `AuthService.task_coro` (Server/Content/auth_service.py): the stretch before the connections are
-- closed, and the stretch after it. Loops go over a copy of the keys.
use cpy_q.Prelude.{ℕ, Option, none, some, List, [], ◌∷◌, map, if◌then◌else◌}
use cpy_q.Prelude.Dict.{Dict, lookup, contains, insert, erase}
use cpy_q.Prelude.Raises.{returns, raises}
use cpy_q.Token.{expired}
use cpy_q.Server.{Session, Server, connected}
use cpy_q.Server.Action.{crash, Action}
use cpy_q.Resource.{unlock}
use cpy_q.Auth.{add, discard, pop_token_keys}

abbrev pub keys : {V : Type 0} → Dict V → List ℕ
keys d = map (λ e. e.0) d

abbrev pub session_of : ℕ → Server → Session
session_of id srv = srv.sessions (srv.tokens id).session

-- `if user in user_to_tokens: user_to_tokens[user].discard(token)`
unfoldable pub discard_token : ℕ → ℕ → Server → Server
discard_token user id srv = record srv {
  user_to_tokens = elim (lookup user srv.user_to_tokens) [
    | none ↦ srv.user_to_tokens
    | some ids ↦ insert user (discard id ids) srv.user_to_tokens
  ];
}

-- `expired_cons.add(cons.get(token))`; `None` is taken out of the set later.
abbrev pub add_connection : Option ℕ → List ℕ → List ℕ
add_connection none cons = cons
add_connection (some con) cons = add con cons

-- One round of the loop over the keys; the list is `expired_cons`.
unfoldable pub sweep_key : ℕ → ℕ → Server × List ℕ → Server × List ℕ
unfolding discard_token pop_token_keys
sweep_key now key (srv, cons) = elim (lookup key srv.key_to_token) [
  | none ↦ (srv, cons)
  | some id ↦
      if expired now (srv.tokens id)
      then (
        discard_token (session_of id srv).user.id id (pop_token_keys id srv),
        add_connection (lookup id (session_of id srv).connections) cons,
      )
      else (srv, cons)
]

unfoldable pub sweep_keys : ℕ → List ℕ → Server × List ℕ → Server × List ℕ
sweep_keys now [] st = st
sweep_keys now (key ∷ rest) st = sweep_keys now rest (sweep_key now key st)

-- One round of the loop over the users.
unfoldable pub sweep_user : ℕ → Server → Server
sweep_user user srv = elim (lookup user srv.user_to_tokens) [
  | some [] ↦ record srv { user_to_tokens = erase user srv.user_to_tokens }
  | _ ↦ srv
]

unfoldable pub sweep_users : List ℕ → Server → Server
sweep_users [] srv = srv
sweep_users (user ∷ rest) srv = sweep_users rest (sweep_user user srv)

-- The first stretch: the state at the `await`, and the connections to close.
unfoldable pub sweep_tokens : ℕ → Server → Server × List ℕ
unfolding sweep_keys sweep_users
sweep_tokens now srv =
    let (srv', cons) = sweep_keys now (keys srv.key_to_token) (srv, []) in
    (sweep_users (keys srv'.user_to_tokens) srv', cons)

-- `resource_id_to_resource[session.resource_id].unlock(session)`; a missing key and a refused
-- `unlock` end the task.
unfoldable pub unlock_idle : ℕ → ℕ → Action Server Unit
unlock_idle now ref srv = elim (srv.sessions ref).resource_id [
  | none ↦ (returns tt, srv)
  | some resource_id ↦
      if connected (srv.sessions ref)
      then (returns tt, srv)
      else elim (lookup resource_id srv.resource_id_to_resource) [
        | none ↦ (raises crash, srv)
        | some resource ↦
            let (r, srv') = unlock now resource ref srv in
            elim r [ returns _ ↦ (returns tt, srv') | raises _ ↦ (raises crash, srv') ]
      ]
]

-- `if session.user not in user_to_tokens: session_id_to_session.pop(session_id)`
unfoldable pub discard_session : ℕ → ℕ → Server → Server
discard_session session_id ref srv =
    if contains (srv.sessions ref).user.id srv.user_to_tokens
    then srv
    else record srv { session_id_to_session = erase session_id srv.session_id_to_session }

unfoldable pub sweep_session : ℕ → ℕ → Action Server Unit
unfolding unlock_idle discard_session
sweep_session now session_id srv = elim (lookup session_id srv.session_id_to_session) [
  | none ↦ (raises crash, srv)
  | some ref ↦
      let (r, srv') = unlock_idle now ref srv in
      elim r [
        | returns _ ↦ (returns tt, discard_session session_id ref srv')
        | raises e ↦ (raises e, srv')
      ]
]

-- The second stretch.
unfoldable pub sweep_sessions : ℕ → List ℕ → Action Server Unit
sweep_sessions now [] srv = (returns tt, srv)
sweep_sessions now (session_id ∷ rest) srv =
    let (r, srv') = sweep_session now session_id srv in
    elim r [ returns _ ↦ sweep_sessions now rest srv' | raises e ↦ (raises e, srv') ]
