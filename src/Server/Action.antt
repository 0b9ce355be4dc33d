-- ===== src/Server/Action.antt =====
-- A stretch of a request's handling without an `await`: it changes the server, and returns or
-- raises an HTTP exception. What was written before a raise stays written.
use cpy_q.Prelude.{ℕ, ◌≡◌, ap, Bool, true, false, Option}
use cpy_q.Prelude.Raises.{Raises, returns, raises}
use cpy_q.Access.{PermissionType, User}

-- The responses with an error status that the services raise (`crash`: any other exception).
pub data HttpError : Type 0 where
  missing_credentials incorrect_credentials too_many_tokens : HttpError
  missing_key invalid_key : HttpError
  is_admin_only is_autopilot_only is_user_only : HttpError
  too_many_requests : HttpError
  id_not_integral unknown_resource_type resource_not_found : HttpError
  missing_permission : PermissionType → HttpError
  resource_locked : Option User → HttpError
  session_bound resource_not_owned already_connected : HttpError
  crash : HttpError

-- The status that `json_wrapper` (Server/Content/middlewares.py) answers with.
abbrev pub status : HttpError → ℕ
status missing_credentials = 400
status incorrect_credentials = 401
status too_many_tokens = 401
status missing_key = 400
status invalid_key = 401
status is_admin_only = 403
status is_autopilot_only = 403
status is_user_only = 403
status too_many_requests = 429
status id_not_integral = 400
status unknown_resource_type = 400
status resource_not_found = 404
status (missing_permission type) = 403
status (resource_locked user) = 409
status session_bound = 409
status resource_not_owned = 409
status already_connected = 409
status crash = 500

abbrev pub Action : Type 0 → Type 0 → Type 0
Action S A = S → Raises HttpError A × S

module _ {S A : Type 0} where
  abbrev pub pure : A → Action S A
  pure a srv = (returns a, srv)

  abbrev pub raise : HttpError → Action S A
  raise e srv = (raises e, srv)

  abbrev pub gets : (S → A) → Action S A
  gets f srv = (returns (f srv), srv)

module _ {S : Type 0} where
  abbrev pub modify : (S → S) → Action S Unit
  modify f srv = (returns tt, f srv)

  abbrev pub raise_if : Bool → HttpError → Action S Unit
  raise_if true e srv = (raises e, srv)
  raise_if false e srv = (returns tt, srv)

infixl 5 ◌>>=◌ ◌>>◌
abbrev pub ◌>>=◌ : {S A B : Type 0} → Action S A → (A → Action S B) → Action S B
◌>>=◌ m f srv =
    let (r, srv') = m srv in elim r [ returns a ↦ f a srv' | raises e ↦ (raises e, srv') ]

abbrev pub ◌>>◌ : {S A B : Type 0} → Action S A → Action S B → Action S B
m >> k = m >>= λ _. k

-- The rest of a handler after a part that returned, and after one that raised.
module _ {S A B : Type 0} where
  abbrev continue : (A → Action S B) → Raises HttpError A × S → Raises HttpError B × S
  continue f p = elim p.0 [ returns a ↦ f a p.1 | raises e ↦ (raises e, p.1) ]

  pub >>=-returns :
      (m : Action S A) (f : A → Action S B) (s : S) {s' : S} {a : A}
      → m s ≡ (returns a, s')
      → (m >>= f) s ≡ f a s'
  >>=-returns m f s h = ap (continue f) h

  pub >>=-raises :
      (m : Action S A) (f : A → Action S B) (s : S) {s' : S} {e : HttpError}
      → m s ≡ (raises e, s')
      → (m >>= f) s ≡ (raises e, s')
  >>=-raises m f s h = ap (continue f) h
