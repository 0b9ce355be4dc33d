-- ===== src/Server.antt =====
-- The state that the services of Server/Content share: the four dictionaries of the class Server
-- (Server/Content/server.py), and the objects that they and each other refer to. A Session
-- (Common/session.py) and a Resource (Server/Content/resource.py) are changed in place and may be
-- referred to from several places, so a reference is a number, and an object is found under it.
-- Token objects are found by the token's own id, since there is one object for each id.
pub mod Action
pub mod Sample
use cpy_q.Prelude.{
  ℕ, suc, ◌≡◌, Bool, true, false, Option, none, some, is_some, List, [], ◌∷◌, ◌==◌, if◌then◌else◌,
}
use cpy_q.Prelude.Dict.{Dict}
use cpy_q.Access.{User}
use cpy_q.Token.{Token, Lifetimes}

-- `connections` maps tokens, by id, to WebSocket proxies.
pub record Session : Type 0 where
  pub id : ℕ
  pub user : User
  pub resource_id : Option ℕ
  pub connections : Dict ℕ

-- `session` refers to a Session object.
pub record Resource : Type 0 where
  pub id : ℕ
  pub owner : User
  pub last_active : ℕ
  pub session : Option ℕ

pub record Config : Type 0 where
  pub max_tokens_per_user : ℕ
  pub times : Lifetimes
  pub resource_grace : ℕ

-- References below `next_object` are in use; `user_to_tokens` has the ids of each user's tokens.
pub record Server : Type 0 where
  pub config : Config
  pub tokens : ℕ → Token
  pub sessions : ℕ → Session
  pub resources : ℕ → Resource
  pub next_object : ℕ
  pub key_to_token : Dict ℕ
  pub user_to_tokens : Dict (List ℕ)
  pub session_id_to_session : Dict ℕ
  pub resource_id_to_resource : Dict ℕ

abbrev pub update : {A : Type 0} → (ℕ → A) → ℕ → A → ℕ → A
update objects ref object other = if other == ref then object else objects other

-- `Session.bound`, `Session.connected`
abbrev pub bound : Session → Bool
bound session = is_some session.resource_id

abbrev pub connected : Session → Bool
connected session = elim session.connections [ [] ↦ false | _ ↦ true ]

abbrev pub set_token : ℕ → Token → Server → Server
set_token id token srv = record srv { tokens = update srv.tokens id token }

abbrev pub set_session : ℕ → Session → Server → Server
set_session ref session srv = record srv { sessions = update srv.sessions ref session }

abbrev pub set_resource : ℕ → Resource → Server → Server
set_resource ref resource srv = record srv { resources = update srv.resources ref resource }

-- `Session.bind`, `Session.unbind` on the object under a reference
abbrev pub bind : ℕ → ℕ → Server → Server
bind ref resource_id srv =
    set_session ref (record (srv.sessions ref) { resource_id = some resource_id }) srv

abbrev pub unbind : ℕ → Server → Server
unbind ref srv = set_session ref (record (srv.sessions ref) { resource_id = none }) srv

-- A new Session object, as `Session(json)` makes it: nothing is connected to it.
abbrev pub make_session : ℕ → User → Option ℕ → Server → Server
make_session id user resource_id srv = record srv {
  sessions =
      update srv.sessions srv.next_object
        (record { id = id; user = user; resource_id = resource_id; connections = [] });
  next_object = suc srv.next_object;
}
