-- ===== src/Guards/Order.antt =====
-- What a handler may rely on behind the decorators of Server/Content/decorators.py, in the order in
-- which the services put them: the rate limit, `user_only`, `validate_access`.
use cpy_q.Prelude.{
  ℕ, ◌≡◌, refl, ◌∙◌, ◌⊎◌, inl, inr, ◌<◌, Bool, true, false, not, some, length, arith, Option-cases,
  Bool-cases,
}
use cpy_q.Prelude.Raises.{Raises, raises}
use cpy_q.Prelude.Dict.{lookup}
use cpy_q.Ratelimit.{recent, check_ratelimit}
use cpy_q.Access.{User}
use cpy_q.Token.{active}
use cpy_q.Server.{Server}
use cpy_q.Server.Action.{
  HttpError, missing_key, invalid_key, too_many_requests, is_user_only, Action,
}
use cpy_q.Auth.{check_key, key_is_valid, token_from_key}
use cpy_q.Guards.{
  Request, access_from_request, session_from_request, user_from_request, get_source, BucketType,
  Guarded, set_hits, ratelimit, validate_access, only, user_only,
}

-- The request carries, where the access key belongs, a key of the table, and the token of that key is
-- active. The table does not tell access keys from refresh keys.
pub record IsAuthenticated (now : ℕ) (request : Request) (srv : Server) : Type 0 where
  pub access : ℕ
  pub id : ℕ
  pub carries : access_from_request request ≡ some access
  pub leads : lookup access srv.key_to_token ≡ some id
  pub is_active : active now (srv.tokens id) ≡ true

authenticated_user :
    (now : ℕ) (request : Request) (srv : Server)
    → IsAuthenticated now request srv
    → (user : User) × (user_from_request request srv ≡ some user)
unfolding user_from_request session_from_request token_from_key
authenticated_user now request srv v = (
  (srv.sessions (srv.tokens v.id).session).user,
  rw (v.carries, user_from_request, session_from_request, token_from_key, v.leads),
)

module _ {A : Type 0} (proxy : Bool) (now : ℕ) (request : Request) where
  validate_access_cases :
      (func : Action Guarded A) (st : Guarded)
      → ((e : HttpError) × (validate_access proxy now request func st ≡ (raises e, st)))
        ⊎ ((validate_access proxy now request func st ≡ func st)
            × IsAuthenticated now request st.server)
  unfolding validate_access check_key key_is_valid
  validate_access_cases func st = elim (Option-cases (access_from_request request)) [
    | inl missing ↦ inl (missing_key, rw (missing, validate_access))
    | inr (access, e) ↦ elim (Option-cases (lookup access st.server.key_to_token)) [
      | inl nowhere ↦ inl (invalid_key, rw (e, validate_access, check_key, key_is_valid, nowhere))
      | inr (id, leads) ↦ elim (Bool-cases (active now (st.server.tokens id))) [
        | inr dead ↦
            inl (invalid_key, rw (e, validate_access, check_key, key_is_valid, leads, dead))
        | inl good ↦ inr (
          rw (e, validate_access, check_key, key_is_valid, leads, good),
          record { access = access; id = id; carries = e; leads = leads; is_active = good },
        )
      ]
    ]
  ]

  only_cases :
      (allowed : User → Bool) (error : HttpError) (func : Action Guarded A) (st : Guarded)
      → (only proxy now request allowed error func st ≡ (raises error, st))
        ⊎ ((only proxy now request allowed error func st ≡ func st)
            × ((user : User)
                → user_from_request request st.server ≡ some user
                → allowed user ≡ true))
  unfolding only
  only_cases allowed error func st = elim (Option-cases (user_from_request request st.server)) [
    | inl missing ↦ inr (rw (missing, only), λ user e. cc (missing, e))
    | inr (user, e) ↦ elim (Bool-cases (allowed user)) [
      | inr not_allowed ↦ inl (rw (e, only, not_allowed))
      | inl fine ↦ inr (rw (e, only, fine), λ other e'. ground (arith, fine, e, e'))
    ]
  ]

  -- The hits of the source after a call of `check_ratelimit`, and whether it passed.
  ratelimit_cases :
      (limit interval : ℕ) (bucket : BucketType) (func : Action Guarded A) (st : Guarded)
      → let source = get_source bucket proxy request st.server in
        let checked = check_ratelimit now (st.hits bucket source) limit interval in
        let counted = set_hits bucket source checked.1 st in
        (ratelimit proxy now request limit interval bucket func st
          ≡ (raises too_many_requests, counted))
        ⊎ ((ratelimit proxy now request limit interval bucket func st ≡ func counted)
            × (length (recent now interval (st.hits bucket source)) < limit))
  unfolding ratelimit check_ratelimit
  ratelimit_cases limit interval bucket func st = ground arith

  module _ (limit interval : ℕ) (bucket : BucketType) (func : Action Guarded A) (st : Guarded) where
    -- The decorators of the handlers for users.
    abbrev pub guarded : Raises HttpError A × Guarded
    guarded =
        ratelimit proxy now request limit interval bucket
          (user_only proxy now request (validate_access proxy now request func)) st

    -- The state in which the handler behind the rate limit runs.
    abbrev pub counted : Guarded
    counted =
        let source = get_source bucket proxy request st.server in
        set_hits bucket source (check_ratelimit now (st.hits bucket source) limit interval).1 st

    -- A handler behind the rate limit, `user_only` and `validate_access` either does not run, and the
    -- request is answered with an error, and the server is as it was; or it runs on that server,
    -- and then the key in the request, the access key or the refresh key, is of an active token, its
    -- user is no autopilot, and its source had fewer than `limit` hits in the last interval.
    pub guarded_cases :
        ((e : HttpError) × (guarded ≡ (raises e, counted)) × (counted.server ≡ st.server))
        ⊎ ((guarded ≡ func counted)
            × (counted.server ≡ st.server)
            × IsAuthenticated now request st.server
            × ((user : User) × (user_from_request request st.server ≡ some user)
                × (user.autopilot ≡ false))
            × (length
                  (recent now interval (st.hits bucket (get_source bucket proxy request st.server)))
                < limit))
    guarded_cases =
        elim (ratelimit_cases limit interval bucket
          (user_only proxy now request (validate_access proxy now request func)) st) [
            | inl same ↦ inl (too_many_requests, same, refl)
            | inr (same, few) ↦
                elim (only_cases (λ user. not user.autopilot) is_user_only
                  (validate_access proxy now request func) counted) [
                    | inl same' ↦ inl (is_user_only, same ∙ same', refl)
                    | inr (same', people) ↦ elim (validate_access_cases func counted) [
                      | inl (e, same'') ↦ inl (e, same ∙ same' ∙ same'', refl)
                      | inr (same'', v) ↦
                          let (user, e) = authenticated_user now request counted.server v in
                          inr (
                            same ∙ same' ∙ same'',
                            refl,
                            v,
                            (user, e, ground (arith, people user e)),
                            few,
                          )
                    ]
                  ]
          ]

  -- The user is looked at before the key is checked: where the key in the request is of a token of an
  -- autopilot, and the token is active no more, the answer of a handler for users is that it is for
  -- users only (403), and not that the key is invalid (401).
  pub dead_autopilot :
      (func : Action Guarded A) (st : Guarded) (access id : ℕ)
      → access_from_request request ≡ some access
      → lookup access st.server.key_to_token ≡ some id
      → (st.server.sessions (st.server.tokens id).session).user.autopilot ≡ true
      → active now (st.server.tokens id) ≡ false
      → (user_only proxy now request (validate_access proxy now request func) st
          ≡ (raises is_user_only, st))
        × (validate_access proxy now request func st ≡ (raises invalid_key, st))
  unfolding only user_from_request session_from_request token_from_key validate_access check_key
      key_is_valid
  dead_autopilot func st access id e leads pilot dead = (
    rw (e, only, user_from_request, session_from_request, token_from_key, leads, pilot),
    rw (e, validate_access, check_key, key_is_valid, leads, dead),
  )
