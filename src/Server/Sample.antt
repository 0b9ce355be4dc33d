-- ===== src/Server/Sample.antt =====
-- A small state of the server (Server/Content/server.py), for tests: user 7 has token 1 with the
-- keys 10 and 20, on session object 1, a copy of the registered session object 0; resource object 4
-- is resource 40, and user 7 owns it.
use cpy_q.Prelude.{ℕ, ◌+◌, none, [], ◌∷◌, ◌==◌, if◌then◌else◌, false}
use cpy_q.Access.{User}
use cpy_q.Token.{Token}
use cpy_q.Server.{Session, Resource, Server}

abbrev pub owner : User
owner = record { id = 7; teams = []; autopilot = false; admin = false }

abbrev pub token : Token
token = record {
  id = 1;
  access = 10;
  refresh = 20;
  access_expires = 900;
  refresh_expires = 3600;
  killed_at = none;
  session = 1;
}

abbrev pub session : ℕ → Session
session ref = record {
  id = if ref == 1 then 300 else 300 + ref;
  user = owner;
  resource_id = none;
  connections = [];
}

abbrev pub resource : ℕ → Resource
resource ref = record { id = 36 + ref; owner = owner; last_active = 0; session = none }

abbrev pub sample : Server
sample = record {
  config = record {
    max_tokens_per_user = 2;
    times = record { access_time = 900; refresh_time = 3600 };
    resource_grace = 300;
  };
  tokens = λ id. token;
  sessions = session;
  resources = resource;
  next_object = 6;
  key_to_token = (10, 1) ∷ (20, 1) ∷ [];
  user_to_tokens = (7, 1 ∷ []) ∷ [];
  session_id_to_session = (300, 0) ∷ [];
  resource_id_to_resource = (40, 4) ∷ [];
}
