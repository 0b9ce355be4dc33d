-- ===== src/Auth/SessionCopy.antt =====
-- The Session object of a new token: `Token.new` of Common/token.py goes through the session's JSON.
use cpy_q.Prelude.{ℕ, ◌<◌, ◌≡◌, refl, ap, ◌∙◌, ◌≢◌, some, [], arith}
use cpy_q.Prelude.Dict.{lookup}
use cpy_q.Prelude.Raises.{returns}
use cpy_q.Access.{User}
use cpy_q.Token.{Secrets, new}
use cpy_q.Server.{Server}
use cpy_q.Auth.{set_default, get_session, new_token, add_token, add_token_keys, issue_for, issue}
use cpy_q.Auth.Issue.{issue_returns}

same_session :
    (session_id wanted ref : ℕ) (user : User) (srv : Server)
    → lookup wanted srv.session_id_to_session ≡ some ref
    → (srv.sessions ref).user.id ≡ user.id
    → get_session (some wanted) session_id user (set_default user.id srv)
      ≡ (ref, set_default user.id srv)
unfolding get_session set_default
same_session session_id wanted ref user srv h own = ground arith

-- The parts of the state that a new token for a session changes.
copied :
    (now : ℕ) (secrets : Secrets) (user ref : ℕ) (srv : Server)
    → ref < srv.next_object
    → let srv' = issue_for now secrets user (ref, srv) in
      let copy = (srv'.tokens secrets.id).session in
      (srv'.session_id_to_session ≡ srv.session_id_to_session)
      × (copy ≢ ref)
      × ((srv'.sessions copy).id ≡ (srv'.sessions ref).id)
      × ((srv'.sessions copy).resource_id ≡ (srv'.sessions ref).resource_id)
      × ((srv'.sessions copy).connections ≡ [])
      × (srv'.sessions ref ≡ srv.sessions ref)
unfolding issue_for add_token_keys add_token new_token new
copied now secrets user ref srv used =
    (refl, ground arith, ground arith, ground arith, ground arith, ground arith)

-- A login that asks for a registered session of the user gets a token whose Session object is not
-- the registered one: it has the same id, the same resource id and no connections, and the
-- registered one stays registered as it was.
pub issue-copies :
    (now : ℕ) (secrets : Secrets) (session_id wanted ref : ℕ) (user : User) (srv : Server) (id : ℕ)
    → lookup wanted srv.session_id_to_session ≡ some ref
    → (srv.sessions ref).user.id ≡ user.id
    → ref < srv.next_object
    → (issue now secrets session_id (some wanted) user srv).0 ≡ returns id
    → let srv' = (issue now secrets session_id (some wanted) user srv).1 in
      let copy = (srv'.tokens id).session in
      (lookup wanted srv'.session_id_to_session ≡ some ref)
      × (copy ≢ ref)
      × ((srv'.sessions copy).id ≡ (srv'.sessions ref).id)
      × ((srv'.sessions copy).resource_id ≡ (srv'.sessions ref).resource_id)
      × ((srv'.sessions copy).connections ≡ [])
      × (srv'.sessions ref ≡ srv.sessions ref)
unfolding set_default
issue-copies now secrets session_id wanted ref user srv id h own used r =
    let (room, same, next) = issue_returns now secrets session_id (some wanted) user srv id r in
    let (a, b, c, d, e, f) = copied now secrets user.id ref (set_default user.id srv) used in
    rw (next, same, same_session session_id wanted ref user srv h own)
      (ap (lookup wanted) a ∙ h, b, c, d, e, f)
