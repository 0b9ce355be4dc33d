-- ===== src/Auth/Login.antt =====
-- `login` of Server/Content/auth_service.py, and `Token.new` of Common/token.py as it calls it.
use cpy_q.Prelude.{
  ℕ, leb, ◌<◌, ◌≡◌, sym, ap, ◌∙◌, ◌≢◌, ◌⊎◌, inl, inr, Bool, true, Option, none, some, arith, elem,
  length, Bool-cases, Option-cases,
}
use cpy_q.Prelude.Dict.{lookup}
use cpy_q.Prelude.Raises.{returns, raises}
use cpy_q.Access.{User}
use cpy_q.Token.{Secrets}
use cpy_q.Server.{Server}
use cpy_q.Server.Action.{
  HttpError, missing_credentials, incorrect_credentials, too_many_tokens, crash,
}
use cpy_q.Auth.{tokens_of, set_default, issue, issue_unhashable, LoginBody, login}
use cpy_q.Auth.Keys.{IsKeyed}
use cpy_q.Auth.Issue.{
  IsLimited, set_default-IsLimited, issue-IsLimited, issue_returns, issued-IsKeyed, lookup-issued,
  issued-tokens_of, elem-add,
}

module _ (check_password : ℕ → ℕ → Bool) (get_user : ℕ → Option (User × ℕ)) (now : ℕ)
    (secrets : Secrets) (session_id : ℕ) (body : LoginBody) (srv : Server) where
  -- The credentials are those of the user.
  pub record Authenticates (user : User) : Type 0 where
    pub username : ℕ
    pub password : ℕ
    pub hashed_password : ℕ
    pub names : body.username ≡ some username
    pub gives : body.password ≡ some password
    pub known : get_user username ≡ some (user, hashed_password)
    pub correct : check_password password hashed_password ≡ true

  -- A login ends at once with an error, or goes on to issue a token for the user.
  login_cases :
      ((e : HttpError) × (login check_password get_user now secrets session_id body srv
          ≡ (raises e, srv)))
      ⊎ ((user : User) × Authenticates user
          × (login check_password get_user now secrets session_id body srv
              ≡ issue now secrets session_id body.session_id user srv))
      ⊎ ((user : User) × (e : HttpError) × (login check_password get_user now secrets session_id
              body srv
            ≡ (raises e, set_default user.id srv)))
  unfolding login issue_unhashable
  login_cases = elim (Option-cases body.username) [
    | inl e ↦ inl (missing_credentials, rw (e, login))
    | inr (username, e₁) ↦ elim (Option-cases body.password) [
      | inl e ↦ inl (missing_credentials, rw (e₁, login, e))
      | inr (password, e₂) ↦ elim (Option-cases (get_user username)) [
        | inl e ↦ inl (incorrect_credentials, rw (e₁, login, e₂, e))
        | inr ((user, hashed), e₃) ↦ elim (Bool-cases (check_password password hashed)) [
          | inr wrong ↦ inl (incorrect_credentials, rw (e₁, login, e₂, e₃, wrong))
          | inl right ↦ elim (Bool-cases body.hashable) [
            | inl fine ↦ inr (
                inl (
                  user,
                  record {
                    username = username;
                    password = password;
                    hashed_password = hashed;
                    names = e₁;
                    gives = e₂;
                    known = e₃;
                    correct = right;
                  },
                  rw (e₁, login, e₂, e₃, right, fine),
                ))
            | inr no_key ↦ inr (inr (unhashable user (rw (e₁, login, e₂, e₃, right, no_key))))
          ]
        ]
      ]
    ]
  ]
    where
      unhashable :
          (user : User)
          → login check_password get_user now secrets session_id body srv
            ≡ issue_unhashable user srv
          → (user : User) × (e : HttpError) × (login check_password get_user now secrets session_id
                body srv
              ≡ (raises e, set_default user.id srv))
      unhashable user h =
          elim (Bool-cases (
            leb srv.config.max_tokens_per_user
              (length (tokens_of user.id (set_default user.id srv))))) [
                | inl full ↦ (user, too_many_tokens, h ∙ rw (full, issue_unhashable))
                | inr room ↦ (user, crash, h ∙ rw (room, issue_unhashable))
              ]

  -- A login never takes a user above the configured number of tokens: if no user is above it
  -- before, none is after, whatever the body, the database and bcrypt say and however it ends.
  pub login-IsLimited :
      IsLimited srv → IsLimited (login check_password get_user now secrets session_id body srv).1
  login-IsLimited v u = elim login_cases [
    | inl (e, same) ↦ rw same (v u)
    | inr (inr (user, e, same)) ↦
        rw same (set_default-IsLimited now secrets session_id body.session_id user srv v u)
    | inr (inl (user, a, same)) ↦
        rw same (issue-IsLimited now secrets session_id body.session_id user srv v u)
  ]

  -- A login that returns a token names a user of the database and that user's password, and the
  -- user had fewer tokens than the configured number.
  pub login-Authenticates :
      (id : ℕ)
      → (login check_password get_user now secrets session_id body srv).0 ≡ returns id
      → (user : User) × Authenticates user
        × (length (tokens_of user.id srv) < srv.config.max_tokens_per_user)
  login-Authenticates id h = elim login_cases [
    | inl (e, same) ↦ cc (ap (λ p. p.0) same)
    | inr (inr (user, e, same)) ↦ cc (ap (λ p. p.0) same)
    | inr (inl (user, a, same)) ↦ (
      user,
      a,
      (issue_returns now secrets session_id body.session_id user srv id
          (sym (ap (λ p. p.0) same) ∙ h)).0,
    )
  ]

  -- A login that returns a token puts the token under both of its keys, counts it among its user's
  -- tokens, leaves every other key as it was, and keeps each key with its token, where the
  -- token's id and keys are in nobody's use.
  pub login-keys :
      (id k : ℕ)
      → IsKeyed srv
      → ((j : ℕ) → lookup j srv.key_to_token ≢ some secrets.id)
      → lookup secrets.access srv.key_to_token ≡ none
      → lookup secrets.refresh srv.key_to_token ≡ none
      → (login check_password get_user now secrets session_id body srv).0 ≡ returns id
      → let srv' = (login check_password get_user now secrets session_id body srv).1 in
        (lookup secrets.access srv'.key_to_token ≡ some id)
        × (lookup secrets.refresh srv'.key_to_token ≡ some id)
        × ((user : User) × Authenticates user × (elem id (tokens_of user.id srv') ≡ true))
        × (k ≢ secrets.access
            → k ≢ secrets.refresh
            → lookup k srv'.key_to_token ≡ lookup k srv.key_to_token)
        × IsKeyed srv'
  login-keys id k v out fa fr h = elim login_cases [
    | inl (e, same) ↦ cc (ap (λ p. p.0) same)
    | inr (inr (user, e, same)) ↦ cc (ap (λ p. p.0) same)
    | inr (inl (user, a, same)) ↦
        let (room, own, next) =
          issue_returns now secrets session_id body.session_id user srv id
            (sym (ap (λ p. p.0) same) ∙ h) in
        let keys = lookup-issued now secrets session_id body.session_id user srv in
        rw (same, next, own)
          (
            ground (arith, keys secrets.access),
            ground (arith, keys secrets.refresh),
            (
              user,
              a,
              rw (issued-tokens_of now secrets session_id body.session_id user srv user.id)
                  (ground (arith, elem-add secrets.id (tokens_of user.id srv))),
            ),
            (λ na nr. ground (arith, keys k)),
            issued-IsKeyed now secrets session_id body.session_id user srv v out fa fr,
          )
  ]
