-- ===== src/Guards.antt =====
-- Server/Content/decorators.py, and what it reads of a request (Server/Content/base_service.py). A
-- decorated handler is the decorator applied to the rest of the handler.
pub mod Order
mod Tests
use cpy_q.Prelude.{
  ℕ, Bool, true, false, not, ◌&&◌, Option, none, some, List, [], ◌∷◌, ◌==◌, if◌then◌else◌,
}
use cpy_q.Prelude.Raises.{Raises, returns, raises}
use cpy_q.Prelude.Dict.{lookup}
use cpy_q.Ratelimit.{Outcome, passed, exceeded, check_ratelimit}
use cpy_q.Access.{User}
use cpy_q.Server.{Server}
use cpy_q.Server.Action.{
  HttpError, too_many_requests, is_admin_only, is_autopilot_only, is_user_only, Action,
}
use cpy_q.Auth.{check_key, token_from_key}

-- The header `Authorization`: with the prefix `Bearer `, or without it.
pub data Authorization : Type 0 where
  bearer : ℕ → Authorization
  other_scheme : Authorization

-- A request, as far as the guards read it. `access` is what an earlier guard has stored in it; a proxy
-- header that is there and not empty is there by its first part, which is `none` where that is empty.
pub record Request : Type 0 where
  pub access : Option ℕ
  pub authorization : Option Authorization
  pub forwarded_for : Option (Option ℕ)
  pub real_ip : Option (Option ℕ)
  pub remote : Option ℕ
  pub route_name : Option ℕ

-- `access_from_request`; what it stores is what it would find again.
unfoldable pub access_from_request : Request → Option ℕ
access_from_request request = elim request.access [
  | some access ↦ some access
  | none ↦ elim request.authorization [ some (bearer access) ↦ some access | _ ↦ none ]
]

abbrev pub token_from_request : Request → Server → Option ℕ
token_from_request request srv = token_from_key (access_from_request request) srv

unfoldable pub session_from_request : Request → Server → Option ℕ
unfolding token_from_key
session_from_request request srv = elim (token_from_request request srv) [
  | none ↦ none
  | some id ↦ some (srv.tokens id).session
]

unfoldable pub user_from_request : Request → Server → Option User
unfolding session_from_request
user_from_request request srv = elim (session_from_request request srv) [
  | none ↦ none
  | some ref ↦ some (srv.sessions ref).user
]

-- `ip_from_request`; the first argument is `config.proxy`, and `none` is `None` or the empty text, for
-- which `get_source` says "anon" alike.
unfoldable pub ip_from_request : Bool → Request → Option ℕ
ip_from_request false request = request.remote
ip_from_request true request = elim request.forwarded_for [
  | some address ↦ address
  | none ↦ elim request.real_ip [ some address ↦ address | none ↦ request.remote ]
]

pub data BucketType : Type 0 where
  by_ip by_user by_token by_route : BucketType

-- `BucketType.get_source`: `none` is the text "anon" or "global".
unfoldable pub get_source : BucketType → Bool → Request → Server → Option ℕ
get_source by_ip proxy request srv = ip_from_request proxy request
get_source by_user proxy request srv = elim (user_from_request request srv) [
  | none ↦ none
  | some user ↦ some user.id
]
get_source by_token proxy request srv = token_from_request request srv
get_source by_route proxy request srv = request.route_name

abbrev pub same_source : Option ℕ → Option ℕ → Bool
same_source none none = true
same_source (some a) (some b) = a == b
same_source _ _ = false

abbrev pub same_bucket : BucketType → BucketType → Bool
same_bucket by_ip by_ip = true
same_bucket by_user by_user = true
same_bucket by_token by_token = true
same_bucket by_route by_route = true
same_bucket _ _ = false

-- The server, and the lists of hits in the `__meta__` of one handler, which its decorators share:
-- one list for each bucket type and source, empty at first.
pub record Guarded : Type 0 where
  pub server : Server
  pub hits : BucketType → Option ℕ → List ℕ

abbrev pub set_hits : BucketType → Option ℕ → List ℕ → Guarded → Guarded
set_hits bucket source hits st = record st {
  hits = λ b s. if same_bucket b bucket && same_source s source then hits else st.hits b s;
}

module _ {A : Type 0} (proxy : Bool) (now : ℕ) (request : Request) where
  unfoldable pub ratelimit : ℕ → ℕ → BucketType → Action Guarded A → Action Guarded A
  unfolding get_source
  ratelimit limit interval bucket func st =
      let source = get_source bucket proxy request st.server in
      let checked = check_ratelimit now (st.hits bucket source) limit interval in
      let counted = set_hits bucket source checked.1 st in
      elim checked.0 [ exceeded ↦ (raises too_many_requests, counted) | passed ↦ func counted ]

  unfoldable pub validate_access : Action Guarded A → Action Guarded A
  validate_access func st = elim (check_key now (access_from_request request) false st.server).0 [
    | raises error ↦ (raises error, st)
    | returns a ↦ func st
  ]

  -- The three decorators that look at the user, where there is one
  unfoldable pub only : (User → Bool) → HttpError → Action Guarded A → Action Guarded A
  unfolding user_from_request
  only allowed error func st = elim (user_from_request request st.server) [
    | none ↦ func st
    | some user ↦ if allowed user then func st else (raises error, st)
  ]

  abbrev pub admin_only : Action Guarded A → Action Guarded A
  admin_only func = only (λ user. user.admin) is_admin_only func

  abbrev pub autopilot_only : Action Guarded A → Action Guarded A
  autopilot_only func = only (λ user. user.autopilot) is_autopilot_only func

  abbrev pub user_only : Action Guarded A → Action Guarded A
  user_only func = only (λ user. not user.autopilot) is_user_only func

-- A handler that changes the server only, within a guarded one.
abbrev pub on_server : {A : Type 0} → Action Server A → Action Guarded A
on_server func st = let (r, srv) = func st.server in (r, record st { server = srv })
