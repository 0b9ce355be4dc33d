-- ===== src/Auth/Issue.antt =====
-- How a login issues a token (Server/Content/auth_service.py, `Token.new` of Common/token.py).
use cpy_q.Prelude.{
  ℕ, ◌+◌, ◌≤◌, ◌<◌, ◌≡◌, refl, ap, ◌∙◌, ◌≢◌, inl, inr, true, Option, none, some, List, [], ◌∷◌,
  ◌++◌, arith, ◌==◌, leb, elem, length, length-append, if◌then◌else◌, Bool-cases, Option-cases,
}
use cpy_q.Prelude.Dict.{Dict, lookup, insert, lookup-insert}
use cpy_q.Prelude.Raises.{returns}
use cpy_q.Access.{User}
use cpy_q.Token.{Secrets, new}
use cpy_q.Server.{Server}
use cpy_q.Auth.{
  add, tokens_in, tokens_of, set_default, get_session, new_token, add_token, add_token_keys,
  issue_for, issue,
}
use cpy_q.Auth.Keys.{IsKeyed, lookup-add_token_keys, update-Keyed, add_token_keys-IsKeyed}

tokens_in-insert :
    (u user : ℕ) (ids : List ℕ) (d : Dict (List ℕ))
    → tokens_in u (insert user ids d) ≡ (if u == user then ids else tokens_in u d)
unfolding tokens_in
tokens_in-insert u user ids d = ground (arith, lookup-insert u user ids d)

tokens_in-insert_empty :
    (u user : ℕ) (d : Dict (List ℕ))
    → lookup user d ≡ none
    → tokens_in u (insert user [] d) ≡ tokens_in u d
unfolding tokens_in
tokens_in-insert_empty u user d missing = ground (arith, lookup-insert u user [] d)

length-add : (id : ℕ) (ids : List ℕ) → length (add id ids) ≤ length ids + 1
unfolding add
length-add id ids = ground (arith, length-append ids (id ∷ []))

module _ (now : ℕ) (secrets : Secrets) (session_id : ℕ) (wanted : Option ℕ) (user : User)
    (srv : Server) where
  -- The session and the state after it is found or made.
  abbrev pub found : ℕ × Server
  found = get_session wanted session_id user (set_default user.id srv)

  -- The state after a token is issued.
  abbrev pub issued : Server
  issued = issue_for now secrets user.id found

  abbrev pub made : Server
  made = new_token now secrets found.0 found.1

  pub found-keeps :
      (found.1.key_to_token ≡ srv.key_to_token)
      × (found.1.tokens ≡ srv.tokens)
      × (found.1.config ≡ srv.config)
      × (found.1.user_to_tokens ≡ (set_default user.id srv).user_to_tokens)
  unfolding get_session set_default
  found-keeps = ground arith

  set_default-tokens_of : (u : ℕ) → tokens_of u (set_default user.id srv) ≡ tokens_of u srv
  unfolding set_default
  set_default-tokens_of u = elim (Option-cases (lookup user.id srv.user_to_tokens)) [
    | inl missing ↦
        rw (missing, set_default) (tokens_in-insert_empty u user.id srv.user_to_tokens missing)
    | inr (ids, e) ↦ rw (e, set_default)
  ]

  found-tokens_of : (u : ℕ) → tokens_of u found.1 ≡ tokens_of u srv
  found-tokens_of u = ap (tokens_in u) found-keeps.3 ∙ set_default-tokens_of u

  -- The tokens of each user after a token is issued.
  pub issued-tokens_of :
      (u : ℕ)
      → tokens_of u issued
        ≡ (if u == user.id then add secrets.id (tokens_of user.id srv) else tokens_of u srv)
  unfolding issue_for add_token_keys add_token new_token
  issued-tokens_of u =
      tokens_in-insert u user.id (add secrets.id (tokens_of user.id found.1)) found.1.user_to_tokens
      ∙ rw (found-tokens_of u, found-tokens_of user.id)

  issued-config : issued.config ≡ srv.config
  unfolding issue_for add_token_keys add_token new_token
  issued-config = found-keeps.2

  default-config : (set_default user.id srv).config ≡ srv.config
  unfolding set_default
  default-config = refl

  -- The limit is still kept if it was, where the user was below it.
  issued-length :
      (u limit : ℕ)
      → ((w : ℕ) → length (tokens_of w srv) ≤ limit)
      → length (tokens_of user.id srv) < limit
      → length (tokens_of u issued) ≤ limit
  issued-length u limit v room =
      rw (issued-tokens_of u) (ground (arith, v u, length-add secrets.id (tokens_of user.id srv)))

  -- The keys after a token is issued.
  pub lookup-issued :
      (k : ℕ)
      → lookup k issued.key_to_token ≡ (
          if k == secrets.refresh
          then some secrets.id
          else if k == secrets.access
          then some secrets.id
          else lookup k srv.key_to_token)
  unfolding issue_for add_token new_token new
  lookup-issued k =
      ground (
        arith,
        lookup-add_token_keys k secrets.id (add_token user.id secrets.id made),
        found-keeps.0,
      )

-- No user has more tokens than the configured number.
abbrev pub IsLimited : Server → Type 0
IsLimited srv = (u : ℕ) → length (tokens_of u srv) ≤ srv.config.max_tokens_per_user

pub set_default-IsLimited :
    (now : ℕ) (secrets : Secrets) (session_id : ℕ) (wanted : Option ℕ) (user : User) (srv : Server)
    → IsLimited srv
    → IsLimited (set_default user.id srv)
set_default-IsLimited now secrets session_id wanted user srv v u = ground (
  arith,
  v u,
  set_default-tokens_of now secrets session_id wanted user srv u,
  default-config now secrets session_id wanted user srv,
)

pub issue-IsLimited :
    (now : ℕ) (secrets : Secrets) (session_id : ℕ) (wanted : Option ℕ) (user : User) (srv : Server)
    → IsLimited srv
    → IsLimited (issue now secrets session_id wanted user srv).1
unfolding issue
issue-IsLimited now secrets session_id wanted user srv v u =
    elim (Bool-cases
      (leb srv.config.max_tokens_per_user (length (tokens_of user.id (set_default user.id srv))))) [
        | inl full ↦
            rw (full, if◌then◌else◌)
              (ground (
                arith,
                v u,
                set_default-tokens_of now secrets session_id wanted user srv u,
                default-config now secrets session_id wanted user srv,
              ))
        | inr room ↦
            rw (room, if◌then◌else◌)
              (ground (
                arith,
                issued-length now secrets session_id wanted user srv u
                    srv.config.max_tokens_per_user v,
                issued-config now secrets session_id wanted user srv,
                set_default-tokens_of now secrets session_id wanted user srv user.id,
              ))
      ]

pub issue_returns :
    (now : ℕ) (secrets : Secrets) (session_id : ℕ) (wanted : Option ℕ) (user : User) (srv : Server)
    (id : ℕ)
    → (issue now secrets session_id wanted user srv).0 ≡ returns id
    → (length (tokens_of user.id srv) < srv.config.max_tokens_per_user)
      × (id ≡ secrets.id)
      × ((issue now secrets session_id wanted user srv).1
          ≡ issued now secrets session_id wanted user srv)
unfolding issue
issue_returns now secrets session_id wanted user srv id h =
    let same = set_default-tokens_of now secrets session_id wanted user srv user.id in
    (ground (arith, same), ground (arith, same), ground (arith, same))

elem_append : (id : ℕ) (ids : List ℕ) → elem id (ids ++ id ∷ []) ≡ true
elem_append id [] = ground arith
elem_append id (i ∷ ids) = ground (arith, elem_append id ids)

pub elem-add : (id : ℕ) (ids : List ℕ) → elem id (add id ids) ≡ true
unfolding add
elem-add id ids = ground (arith, elem_append id ids)

module _ (now : ℕ) (secrets : Secrets) (session_id : ℕ) (wanted : Option ℕ) (user : User)
    (srv : Server) (v : IsKeyed srv) (out : (k : ℕ) → lookup k srv.key_to_token ≢ some secrets.id)
    (fa : lookup secrets.access srv.key_to_token ≡ none)
    (fr : lookup secrets.refresh srv.key_to_token ≡ none) where
  abbrev before_keys : Server
  before_keys = add_token user.id secrets.id (made now secrets session_id wanted user srv)

  before_keys-IsKeyed : IsKeyed before_keys
  unfolding add_token new_token
  before_keys-IsKeyed =
      let keeps = found-keeps now secrets session_id wanted user srv in
      rw (keeps.1, keeps.0) (update-Keyed secrets.id _ srv.tokens srv.key_to_token v out)

  before_keys-token :
      ((before_keys.tokens secrets.id).access ≡ secrets.access)
      × ((before_keys.tokens secrets.id).refresh ≡ secrets.refresh)
      × (before_keys.key_to_token ≡ srv.key_to_token)
  unfolding add_token new_token new
  before_keys-token =
      (ground arith, ground arith, (found-keeps now secrets session_id wanted user srv).0)

  pub issued-IsKeyed : IsKeyed (issued now secrets session_id wanted user srv)
  unfolding issue_for
  issued-IsKeyed =
      let same = before_keys-token in
      add_token_keys-IsKeyed secrets.id before_keys before_keys-IsKeyed (λ k. rw same.2 (out k))
        (rw (same.0, same.2) fa) (rw (same.1, same.2) fr)
