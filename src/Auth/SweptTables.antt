-- ===== src/Auth/SweptTables.antt =====
-- What the first stretch of the task of `AuthService` (Server/Content/auth_service.py) takes out of
-- the tables.
use cpy_q.Prelude.{
  ℕ, ◌≡◌, refl, sym, subst, ◌∙◌, inl, inr, false, Option, none, some, List, [], ◌∷◌, elem, arith,
  ◌==◌, if◌then◌else◌, Option-cases,
}
use cpy_q.Prelude.Dict.{Dict, lookup, lookup-erase}
use cpy_q.Token.{expired}
use cpy_q.Server.{Server}
use cpy_q.Auth.Keys.{IsKeyed}
use cpy_q.Auth.Sweep.{keys, sweep_keys, sweep_user, sweep_users, sweep_tokens}
use cpy_q.Auth.Sweeping.{lookup-keys, Swept, IsClean, sweep_keys-Swept}

sweep_users-keys :
    (users : List ℕ) (srv : Server)
    → ((sweep_users users srv).key_to_token ≡ srv.key_to_token)
      × ((sweep_users users srv).tokens ≡ srv.tokens)
unfolding sweep_users
sweep_users-keys [] srv = (refl, refl)
sweep_users-keys (user ∷ rest) srv =
    let later = sweep_users-keys rest (sweep_user user srv) in
    (later.0 ∙ (one user srv).0, later.1 ∙ (one user srv).1)
  where
    one :
        (user : ℕ) (srv : Server)
        → ((sweep_user user srv).key_to_token ≡ srv.key_to_token)
          × ((sweep_user user srv).tokens ≡ srv.tokens)
    one user srv = unfold sweep_user in (ground arith, ground arith)

-- What the key leads to where it leads to an unexpired token.
abbrev pub unexpired_lookup : ℕ → Server → ℕ → Option ℕ
unexpired_lookup now srv k = elim (lookup k srv.key_to_token) [
  | none ↦ none
  | some id ↦ if expired now (srv.tokens id) then none else some id
]

Swept-lookup :
    (now k : ℕ) (old srv : Server)
    → Swept now old srv
    → IsClean now srv k
    → lookup k srv.key_to_token ≡ unexpired_lookup now old k
Swept-lookup now k old srv s clean = elim (s.kept_or_expired k) [
  | inr (away, (id, was, over)) ↦ ground (arith, away, was, over)
  | inl kept ↦ elim (Option-cases (lookup k old.key_to_token)) [
    | inl missing ↦ ground (arith, kept, missing)
    | inr (id, was) ↦
        let good = subst (λ f. expired now (f id) ≡ false) s.same_tokens (clean id (kept ∙ was)) in
        ground (arith, kept, was, good)
  ]
]

-- Where each key belongs to its token, the first stretch of the task takes exactly the keys of
-- expired tokens out of the table: every key leads to the unexpired token that it led to, or
-- nowhere. It changes no token, and each key still belongs to its token.
pub sweep_tokens-keys :
    (now k : ℕ) (srv : Server)
    → IsKeyed srv
    → let srv' = (sweep_tokens now srv).0 in
      (lookup k srv'.key_to_token ≡ unexpired_lookup now srv k)
      × (srv'.tokens ≡ srv.tokens)
      × IsKeyed srv'
unfolding sweep_tokens
sweep_tokens-keys now k srv v =
    let swept = sweep_keys now (keys srv.key_to_token) (srv, []) in
    let (s, stays, each) =
      sweep_keys-Swept now (keys srv.key_to_token) srv srv []
        (record { same_tokens = refl; kept_or_expired = λ j. inl refl; keyed = v }) in
    let clean : IsClean now swept.0 k = λ id h. elim (s.kept_or_expired k) [
      | inl kept ↦ each k (lookup-keys k id srv.key_to_token (sym kept ∙ h)) id h
      | inr (away, gone) ↦ cc (away, h)
    ] in
    let later = sweep_users-keys (keys swept.0.user_to_tokens) swept.0 in
    rw (later.0, later.1) (Swept-lookup now k srv swept.0 s clean, s.same_tokens, s.keyed)

-- The set, unless there is none or it is empty.
abbrev pub nonempty : Option (List ℕ) → Option (List ℕ)
nonempty (some []) = none
nonempty other = other

sweep_user-lookup :
    (user u : ℕ) (srv : Server)
    → lookup u (sweep_user user srv).user_to_tokens
      ≡ (if u == user then nonempty (lookup u srv.user_to_tokens) else lookup u srv.user_to_tokens)
sweep_user-lookup user u srv = go (lookup user srv.user_to_tokens) refl
  where
    go :
        (o : Option (List ℕ))
        → lookup user srv.user_to_tokens ≡ o
        → lookup u (sweep_user user srv).user_to_tokens ≡ (
            if u == user
            then nonempty (lookup u srv.user_to_tokens)
            else lookup u srv.user_to_tokens)
    go none e = unfold sweep_user in ground arith
    go (some []) e = unfold sweep_user in ground (arith, lookup-erase u user srv.user_to_tokens)
    go (some (id ∷ ids)) e = unfold sweep_user in ground arith

nonempty_idem : (o : Option (List ℕ)) → nonempty (nonempty o) ≡ nonempty o
nonempty_idem none = refl
nonempty_idem (some []) = refl
nonempty_idem (some (id ∷ ids)) = refl

-- After the loop, each user that it has come to has a set that is not empty, or none.
sweep_users-lookup :
    (users : List ℕ) (u : ℕ) (srv : Server)
    → lookup u (sweep_users users srv).user_to_tokens ≡ (
        if elem u users
        then nonempty (lookup u srv.user_to_tokens)
        else lookup u srv.user_to_tokens)
unfolding sweep_users
sweep_users-lookup [] u srv = refl
sweep_users-lookup (user ∷ rest) u srv = ground (
  arith,
  sweep_users-lookup rest u (sweep_user user srv),
  sweep_user-lookup user u srv,
  nonempty_idem (lookup u srv.user_to_tokens),
)

pub elem-keys : {V : Type 0} (k : ℕ) (d : Dict V) → elem k (keys d) ≡ false → lookup k d ≡ none
unfolding lookup
elem-keys k [] h = refl
elem-keys k (e ∷ d) h = ground (arith, elem-keys k d)

-- The loop over a copy of the users takes exactly the empty sets out of `user_to_tokens`.
pub sweep_users-nonempty :
    (u : ℕ) (srv : Server)
    → lookup u (sweep_users (keys srv.user_to_tokens) srv).user_to_tokens
      ≡ nonempty (lookup u srv.user_to_tokens)
sweep_users-nonempty u srv =
    ground
      (arith, sweep_users-lookup (keys srv.user_to_tokens) u srv, elem-keys u srv.user_to_tokens)
