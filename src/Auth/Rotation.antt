-- ===== src/Auth/Rotation.antt =====
-- `refresh` of Server/Content/auth_service.py, and `check_key` of Server/Content/base_service.py.
use cpy_q.Prelude.{
  ℕ, ◌<◌, ◌≤◌, ◌≡◌, refl, ap, subst, ◌∙◌, ◌≢◌, ◌⊎◌, inl, inr, Option-cases, Bool-cases, ltb, Bool,
  true, false, not, none, some, arith, ◌==◌, if◌then◌else◌,
}
use cpy_q.Prelude.Dict.{lookup}
use cpy_q.Prelude.Raises.{returns, raises}
use cpy_q.Token.{Token, Secrets, active, expired, renew}
use cpy_q.Server.{Server, set_token}
use cpy_q.Server.Action.{missing_key, invalid_key, >>=-returns}
use cpy_q.Auth.{key_is_valid, check_key, pop_token_keys, renew_token, renew_found, refresh}
use cpy_q.Auth.Keys.{
  IsKeyed, lookup-add_token_keys, lookup-pop_token_keys, pop_token_keys-IsKeyed, popped_not_in,
  update-Keyed, add_token_keys-IsKeyed,
}

-- The token may be used: it is not killed, and the time of the use is not over, which is the access
-- time of the token or, for a refresh, the refresh time with its last moment.
abbrev pub IsUsable : ℕ → Bool → Token → Type 0
IsUsable now false token = (token.killed_at ≡ none) × (now < token.access_expires)
IsUsable now true token = (token.killed_at ≡ none) × (now ≤ token.refresh_expires)

IsUsable-cases :
    (now : ℕ) (for_refresh : Bool) (token : Token)
    → let good = (if for_refresh then not (expired now token) else active now token) in
      ((good ≡ true) × IsUsable now for_refresh token)
      ⊎ ((good ≡ false) × ¬ IsUsable now for_refresh token)
unfolding active expired
IsUsable-cases now false token = elim (Option-cases token.killed_at) [
  | inl e ↦ elim (Bool-cases (ltb now token.access_expires)) [
    | inl good ↦ inl (ground (arith, e, good), (e, ground (arith, good)))
    | inr late ↦ inr (ground (arith, e, late), λ p. ground (arith, late, p.1))
  ]
  | inr (t, e) ↦ inr (ground (arith, e), λ p. cc (e, p.0))
]
IsUsable-cases now true token = elim (Option-cases token.killed_at) [
  | inl e ↦ elim (Bool-cases (ltb token.refresh_expires now)) [
    | inr good ↦ inl (ground (arith, e, good), (e, ground (arith, good)))
    | inl late ↦ inr (ground (arith, e, late), λ p. ground (arith, late, p.1))
  ]
  | inr (t, e) ↦ inr (ground (arith, e), λ p. cc (e, p.0))
]

-- A check of a key, on all of its branches, none of which changes anything. What is no text is a bad
-- request. A text passes, for a use of the access or the refresh key, where the table has it, be it the
-- one key or the other, and its token is not killed and not over its time for that use; and every other
-- text is an invalid key.
pub check_key_cases :
    (now key : ℕ) (for_refresh : Bool) (srv : Server)
    → (check_key now none for_refresh srv ≡ (raises missing_key, srv))
      × (((check_key now (some key) for_refresh srv ≡ (returns tt, srv))
            × ((id : ℕ) × (lookup key srv.key_to_token ≡ some id)
                × IsUsable now for_refresh (srv.tokens id)))
          ⊎ ((check_key now (some key) for_refresh srv ≡ (raises invalid_key, srv))
              × ((id : ℕ)
                  → lookup key srv.key_to_token ≡ some id
                  → ¬ IsUsable now for_refresh (srv.tokens id))))
unfolding check_key key_is_valid
check_key_cases now key for_refresh srv = elim (Option-cases (lookup key srv.key_to_token)) [
  | inl nowhere ↦
      (refl, inr (rw (check_key, key_is_valid, nowhere) refl, λ id found. cc (nowhere, found)))
  | inr (id, e) ↦ elim (IsUsable-cases now for_refresh (srv.tokens id)) [
    | inl (good, usable) ↦ (refl, inl (rw (check_key, key_is_valid, e, good) refl, (id, e, usable)))
    | inr (bad, unusable) ↦ (
      refl,
      inr (
        rw (check_key, key_is_valid, e, bad) refl,
        λ id' found.
            subst (λ i. ¬ IsUsable now for_refresh (srv.tokens i)) (same id id' e found) unusable,
      ),
    )
  ]
]
  where
    same :
        (id id' : ℕ)
        → lookup key srv.key_to_token ≡ some id
        → lookup key srv.key_to_token ≡ some id'
        → id ≡ id'
    same id id' e found = ground (arith, e, found)

check_passes :
    (now id key : ℕ) (for_refresh : Bool) (srv : Server)
    → lookup key srv.key_to_token ≡ some id
    → (if for_refresh then not (expired now (srv.tokens id)) else active now (srv.tokens id)) ≡ true
    → check_key now (some key) for_refresh srv ≡ (returns tt, srv)
unfolding check_key
check_passes now id key for_refresh srv h good = rw (h, check_key, key_is_valid, good)

refresh_found :
    (now id key : ℕ) (secrets : Secrets) (srv : Server)
    → lookup key srv.key_to_token ≡ some id
    → expired now (srv.tokens id) ≡ false
    → refresh now secrets (some key) srv ≡ (returns id, renew_token now secrets id srv)
unfolding refresh renew_found
refresh_found now id key secrets srv h unexpired =
    >>=-returns (check_key now (some key) true) (λ _. renew_found now secrets (some key)) srv
      (check_passes now id key true srv h (ap not unexpired))
    ∙ found
  where
    found : renew_found now secrets (some key) srv ≡ (returns id, renew_token now secrets id srv)
    found = rw (h, renew_found)

module _ (now id : ℕ) (secrets : Secrets) (srv : Server) (v : IsKeyed srv) (key : ℕ)
    (h : lookup key srv.key_to_token ≡ some id) (unexpired : expired now (srv.tokens id) ≡ false)
    (fa : lookup secrets.access srv.key_to_token ≡ none)
    (fr : lookup secrets.refresh srv.key_to_token ≡ none) where
  -- The state between `pop_token_keys` and `add_token_keys`.
  abbrev middle : Server
  middle =
      set_token id (renew now srv.config.times secrets (srv.tokens id)).0 (pop_token_keys id srv)

  renewed_keys :
      ((middle.tokens id).access ≡ secrets.access) × ((middle.tokens id).refresh ≡ secrets.refresh)
  unfolding renew
  renewed_keys = ground arith

  middle_out : (k : ℕ) → lookup k middle.key_to_token ≢ some id
  middle_out = popped_not_in key id srv v h

  middle-IsKeyed : IsKeyed middle
  middle-IsKeyed =
      update-Keyed id _ (pop_token_keys id srv).tokens _ (pop_token_keys-IsKeyed key id srv v h)
        (popped_not_in key id srv v h)

  middle_none : (k : ℕ) → lookup k srv.key_to_token ≡ none → lookup k middle.key_to_token ≡ none
  middle_none k e = ground (arith, lookup-pop_token_keys k id srv)

  -- The table after the renewal, key by key.
  lookup-renewed :
      (k : ℕ)
      → lookup k (renew_token now secrets id srv).key_to_token ≡ (
          if k == secrets.refresh
          then some id
          else if k == secrets.access
          then some id
          else if k == (srv.tokens id).refresh
          then none
          else if k == (srv.tokens id).access
          then none
          else lookup k srv.key_to_token)
  unfolding renew_token
  lookup-renewed k =
      ground
        (arith, lookup-add_token_keys k id middle, lookup-pop_token_keys k id srv, renewed_keys)

  refresh_returns :
      refresh now secrets (some key) srv ≡ (returns id, renew_token now secrets id srv)
  refresh_returns = refresh_found now id key secrets srv h unexpired

  renewed-IsKeyed : IsKeyed (renew_token now secrets id srv)
  unfolding renew_token
  renewed-IsKeyed =
      add_token_keys-IsKeyed id middle middle-IsKeyed middle_out
        (rw renewed_keys.0 (middle_none secrets.access fa))
        (rw renewed_keys.1 (middle_none secrets.refresh fr))

  -- With a key of an unexpired token in the table, and new keys that are in nobody's use, `refresh`
  -- returns that token: both new keys lead to it, its old keys lead nowhere,
  -- every other key leads where it led, and each key still belongs to its token.
  pub refresh_rotates :
      (k : ℕ)
      → let (r, srv') = refresh now secrets (some key) srv in
        (r ≡ returns id)
        × (lookup secrets.access srv'.key_to_token ≡ some id)
        × (lookup secrets.refresh srv'.key_to_token ≡ some id)
        × (lookup (srv.tokens id).access srv'.key_to_token ≡ none)
        × (lookup (srv.tokens id).refresh srv'.key_to_token ≡ none)
        × (lookup k srv.key_to_token ≢ some id
            → k ≢ secrets.access
            → k ≢ secrets.refresh
            → lookup k srv'.key_to_token ≡ lookup k srv.key_to_token)
        × IsKeyed srv'
  refresh_rotates k = rw refresh_returns (
    refl,
    ground (arith, lookup-renewed secrets.access),
    ground (arith, lookup-renewed secrets.refresh),
    ground (arith, lookup-renewed (srv.tokens id).access, v.access key id h),
    ground (arith, lookup-renewed (srv.tokens id).refresh, v.refresh key id h),
    (λ out na nr. ground (arith, lookup-renewed k, v.access key id h, v.refresh key id h)),
    renewed-IsKeyed,
  )

-- Nothing tells the two keys of a token apart. For a token in the table that is good for both uses,
-- `check_key` accepts the access key where a refresh key is wanted, and `refresh` renews the token
-- by it; and `check_key` accepts the refresh key where an access key is wanted.
pub keys_interchangeable :
    (now id key : ℕ) (secrets : Secrets) (srv : Server)
    → IsKeyed srv
    → lookup key srv.key_to_token ≡ some id
    → active now (srv.tokens id) ≡ true
    → expired now (srv.tokens id) ≡ false
    → (check_key now (some (srv.tokens id).access) true srv ≡ (returns tt, srv))
      × ((refresh now secrets (some (srv.tokens id).access) srv).0 ≡ returns id)
      × (check_key now (some (srv.tokens id).refresh) false srv ≡ (returns tt, srv))
keys_interchangeable now id key secrets srv v h good unexpired = (
  check_passes now id _ true srv (v.access key id h) (ap not unexpired),
  rw (refresh_found now id _ secrets srv (v.access key id h) unexpired),
  check_passes now id _ false srv (v.refresh key id h) good,
)
