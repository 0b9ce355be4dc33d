-- ===== src/Auth.antt =====
-- Server/Content/base_service.py (keys) and Server/Content/auth_service.py. A call of `now()` is the
-- argument `now`: the clock stands still within one stretch of code that has no `await`.
pub mod Keys
pub mod Issue
pub mod Login
pub mod SessionCopy
pub mod Rotation
pub mod Sweep
pub mod Sweeping
pub mod SweptTables
mod Tests
use cpy_q.Prelude.{
  ℕ, ◌+◌, Bool, true, false, not, ◌&&◌, ◌||◌, Option, none, some, is_some, List, [], ◌∷◌, ◌++◌, map,
  length, elem, ltb, leb, ◌==◌, if◌then◌else◌,
}
use cpy_q.Prelude.Dict.{Dict, lookup, contains, insert, erase}
use cpy_q.Prelude.Raises.{Raises, returns, raises}
use cpy_q.Access.{User}
use cpy_q.Token.{Token, Secrets, active, expired, kill, renew, new}
use cpy_q.Server.{Session, Server, set_token, make_session}
use cpy_q.Server.Action.{
  HttpError, missing_credentials, incorrect_credentials, too_many_tokens, missing_key, invalid_key,
  crash, Action, pure, raise, gets, modify, raise_if, ◌>>=◌, ◌>>◌,
}

-- `BaseService.key_is_valid`
unfoldable pub key_is_valid : ℕ → ℕ → Bool → Server → Bool
key_is_valid now key for_refresh srv = elim (lookup key srv.key_to_token) [
  | none ↦ false
  | some id ↦ if for_refresh then not (expired now (srv.tokens id)) else active now (srv.tokens id)
]

-- `BaseService.check_key`
unfoldable pub check_key : ℕ → Option ℕ → Bool → Action Server Unit
unfolding key_is_valid
check_key now none for_refresh srv = (raises missing_key, srv)
check_key now (some key) for_refresh srv =
    if key_is_valid now key for_refresh srv then (returns tt, srv) else (raises invalid_key, srv)

-- `set.add` and `set.discard` on a set of token ids
unfoldable pub add : ℕ → List ℕ → List ℕ
add id ids = if elem id ids then ids else ids ++ id ∷ []

unfoldable pub discard : ℕ → List ℕ → List ℕ
discard id [] = []
discard id (i ∷ ids) = let rest = discard id ids in if i == id then rest else i ∷ rest

unfoldable pub add_token_keys : ℕ → Server → Server
add_token_keys id srv = record srv {
  key_to_token =
      insert (srv.tokens id).refresh id (insert (srv.tokens id).access id srv.key_to_token);
}

unfoldable pub pop_token_keys : ℕ → Server → Server
pop_token_keys id srv = record srv {
  key_to_token = erase (srv.tokens id).refresh (erase (srv.tokens id).access srv.key_to_token);
}

-- The set that a dictionary of sets has for a user, empty where it has none.
unfoldable pub tokens_in : ℕ → Dict (List ℕ) → List ℕ
tokens_in user d = elim (lookup user d) [ none ↦ [] | some ids ↦ ids ]

abbrev pub tokens_of : ℕ → Server → List ℕ
tokens_of user srv = tokens_in user srv.user_to_tokens

-- `user_to_tokens.setdefault(user, set())`
unfoldable pub set_default : ℕ → Server → Server
set_default user srv = record srv {
  user_to_tokens = elim (lookup user srv.user_to_tokens) [
    | none ↦ insert user [] srv.user_to_tokens
    | some ids ↦ srv.user_to_tokens
  ];
}

-- `self.server.session_id_to_session[data["session_id"]]`, where that is a session of the user
unfoldable pub find_session : Option ℕ → User → Server → Option ℕ
find_session none user srv = none
find_session (some session_id) user srv = elim (lookup session_id srv.session_id_to_session) [
  | none ↦ none
  | some ref ↦ if (srv.sessions ref).user.id == user.id then some ref else none
]

-- `Session.new(user)`, and its registration
unfoldable pub new_session : ℕ → User → Server → ℕ × Server
new_session session_id user srv = (
  srv.next_object,
  record (make_session session_id user none srv) {
    session_id_to_session = insert session_id srv.next_object srv.session_id_to_session;
  },
)

unfoldable pub get_session : Option ℕ → ℕ → User → Server → ℕ × Server
unfolding find_session new_session
get_session wanted session_id user srv = elim (find_session wanted user srv) [
  | some ref ↦ (ref, srv)
  | none ↦ new_session session_id user srv
]

-- `Token.new(session, ...)` of Common/token.py: it builds the token from the session's JSON, and so
-- makes another Session object with the same id, user and resource id.
unfoldable pub new_token : ℕ → Secrets → ℕ → Server → Server
new_token now secrets ref srv =
    set_token secrets.id (new now srv.config.times secrets srv.next_object) (
      make_session (srv.sessions ref).id (srv.sessions ref).user (srv.sessions ref).resource_id srv)

-- `tokens.add(token)` on the set that `user_to_tokens` has
unfoldable pub add_token : ℕ → ℕ → Server → Server
add_token user id srv = record srv {
  user_to_tokens = insert user (add id (tokens_of user srv)) srv.user_to_tokens;
}

-- `Token.new`, `tokens.add(token)` and `add_token_keys(token)`, for the session that was found
unfoldable pub issue_for : ℕ → Secrets → ℕ → ℕ × Server → Server
issue_for now secrets user (session, srv) =
    add_token_keys secrets.id (add_token user secrets.id (new_token now secrets session srv))

-- `login`, from the limit on tokens to the end, which has no `await`
unfoldable pub issue : ℕ → Secrets → ℕ → Option ℕ → User → Action Server ℕ
issue now secrets session_id wanted user srv =
    let ready = set_default user.id srv in
    if leb srv.config.max_tokens_per_user (length (tokens_of user.id ready))
    then (raises too_many_tokens, ready)
    else (
      returns secrets.id,
      issue_for now secrets user.id (get_session wanted session_id user ready),
    )

-- `login` from the limit on tokens, where `session_id` of the body is a list or an object: it is no
-- key of a dictionary, and the look-up raises TypeError, which nothing catches.
unfoldable pub issue_unhashable : User → Action Server ℕ
issue_unhashable user srv =
    let ready = set_default user.id srv in
    if leb srv.config.max_tokens_per_user (length (tokens_of user.id ready))
    then (raises too_many_tokens, ready)
    else (raises crash, ready)

-- The fields of the body that `login` reads; `none` where a text is missing or of another type. A
-- `session_id` that is a list or an object is not hashable.
pub record LoginBody : Type 0 where
  pub username : Option ℕ
  pub password : Option ℕ
  pub session_id : Option ℕ
  pub hashable : Bool

-- `login`, after the `await`s: `get_user` is what the database returns for a name, with the hash of
-- the password, and `check_password` is bcrypt. (For an unknown name the code checks a dummy hash
-- too, and ignores the answer.)
unfoldable pub login :
    (ℕ → ℕ → Bool) → (ℕ → Option (User × ℕ)) → ℕ → Secrets → ℕ → LoginBody → Action Server ℕ
login check_password get_user now secrets session_id body srv = elim body.username [
  | none ↦ (raises missing_credentials, srv)
  | some username ↦ elim body.password [
    | none ↦ (raises missing_credentials, srv)
    | some password ↦ elim (get_user username) [
      | none ↦ (raises incorrect_credentials, srv)
      | some (user, hashed_password) ↦
          if check_password password hashed_password
          then (if body.hashable
              then issue now secrets session_id body.session_id user srv
              else issue_unhashable user srv)
          else (raises incorrect_credentials, srv)
    ]
  ]
]

-- `token.renew(...)` between `pop_token_keys` and `add_token_keys`
unfoldable pub renew_token : ℕ → Secrets → ℕ → Server → Server
unfolding pop_token_keys add_token_keys
renew_token now secrets id srv =
    let popped = pop_token_keys id srv in
    add_token_keys id (set_token id (renew now srv.config.times secrets (srv.tokens id)).0 popped)

-- `token = self.server.key_to_token[refresh]`, which raises `KeyError` for a missing key
unfoldable pub renew_found : ℕ → Secrets → Option ℕ → Action Server ℕ
renew_found now secrets none srv = (raises crash, srv)
renew_found now secrets (some key) srv = elim (lookup key srv.key_to_token) [
  | none ↦ (raises crash, srv)
  | some id ↦ (returns id, renew_token now secrets id srv)
]

-- `refresh`, after the body is read
unfoldable pub refresh : ℕ → Secrets → Option ℕ → Action Server ℕ
refresh now secrets key = check_key now key true >> renew_found now secrets key

-- `token_from_request`, from the access key that the request carries
unfoldable pub token_from_key : Option ℕ → Server → Option ℕ
token_from_key none srv = none
token_from_key (some key) srv = lookup key srv.key_to_token

-- `logout`, inside `validate_access`
unfoldable pub logout : ℕ → Option ℕ → Action Server ℕ
unfolding token_from_key
logout now access srv = elim (token_from_key access srv) [
  | none ↦ (raises crash, srv)
  | some id ↦ (returns id, set_token id (kill now (srv.tokens id)).0 srv)
]
