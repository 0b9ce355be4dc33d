-- ===== src/Auth/Keys.antt =====
-- The table `key_to_token` of the server (Server/Content/server.py) and the two methods of
-- Server/Content/auth_service.py that change it.
use cpy_q.Prelude.{
  ℕ, ◌≡◌, refl, sym, ap, subst, ◌∙◌, ◌≢◌, ◌⊎◌, inl, inr, none, some, arith, ◌==◌, if◌then◌else◌,
}
use cpy_q.Prelude.Dict.{Dict, lookup, lookup-insert, lookup-erase}
use cpy_q.Token.{Token}
use cpy_q.Server.{Server, update}
use cpy_q.Auth.{add_token_keys, pop_token_keys}

-- Each key in the table is one of its token's two keys, and a token in the table is there under
-- both of its keys.
pub record Keyed (tokens : ℕ → Token) (table : Dict ℕ) : Type 0 where
  pub own :
      (k id : ℕ) → lookup k table ≡ some id → ((tokens id).access ≡ k) ⊎ ((tokens id).refresh ≡ k)
  pub access : (k id : ℕ) → lookup k table ≡ some id → lookup (tokens id).access table ≡ some id
  pub refresh : (k id : ℕ) → lookup k table ≡ some id → lookup (tokens id).refresh table ≡ some id

abbrev pub IsKeyed : Server → Type 0
IsKeyed srv = Keyed srv.tokens srv.key_to_token

pub lookup-pop_token_keys :
    (k id : ℕ) (srv : Server)
    → lookup k (pop_token_keys id srv).key_to_token ≡ (
        if k == (srv.tokens id).refresh
        then none
        else if k == (srv.tokens id).access
        then none
        else lookup k srv.key_to_token)
unfolding pop_token_keys
lookup-pop_token_keys k id srv = rw (lookup-erase, lookup-erase)

pub lookup-add_token_keys :
    (k id : ℕ) (srv : Server)
    → lookup k (add_token_keys id srv).key_to_token ≡ (
        if k == (srv.tokens id).refresh
        then some id
        else if k == (srv.tokens id).access
        then some id
        else lookup k srv.key_to_token)
unfolding add_token_keys
lookup-add_token_keys k id srv = rw (lookup-insert, lookup-insert)

-- A token of the table that is popped is in it no more; the others keep both keys.
module _ (k₀ id : ℕ) (srv : Server) (v : IsKeyed srv)
    (h : lookup k₀ srv.key_to_token ≡ some id) where
  popped_ne :
      (k id' : ℕ)
      → lookup k (pop_token_keys id srv).key_to_token ≡ some id'
      → (id' ≢ id) × (lookup k srv.key_to_token ≡ some id')
  popped_ne k id' e = ground (arith, lookup-pop_token_keys k id srv, v.own k id')

  still_there :
      (k id' : ℕ)
      → id' ≢ id
      → lookup k srv.key_to_token ≡ some id'
      → lookup k (pop_token_keys id srv).key_to_token ≡ some id'
  still_there k id' ne e =
      ground (arith, lookup-pop_token_keys k id srv, v.access k₀ id, v.refresh k₀ id)

  pub pop_token_keys-IsKeyed : IsKeyed (pop_token_keys id srv)
  unfolding pop_token_keys
  pop_token_keys-IsKeyed = record {
    own = λ k id' e. v.own k id' (popped_ne k id' e).1;
    access = λ k id' e.
        let (ne, there) = popped_ne k id' e in still_there _ id' ne (v.access k id' there);
    refresh = λ k id' e.
        let (ne, there) = popped_ne k id' e in still_there _ id' ne (v.refresh k id' there);
  }

  pub popped_not_in : (k : ℕ) → lookup k (pop_token_keys id srv).key_to_token ≢ some id
  popped_not_in k e = (popped_ne k id e).0 refl

-- A token that is not in the table, with two keys that are not, is put there under both.
module _ (id : ℕ) (srv : Server) (v : IsKeyed srv)
    (out : (k : ℕ) → lookup k srv.key_to_token ≢ some id)
    (fa : lookup (srv.tokens id).access srv.key_to_token ≡ none)
    (fr : lookup (srv.tokens id).refresh srv.key_to_token ≡ none) where
  added_cases :
      (k id' : ℕ)
      → lookup k (add_token_keys id srv).key_to_token ≡ some id'
      → ((id' ≡ id) × (((srv.tokens id).access ≡ k) ⊎ ((srv.tokens id).refresh ≡ k)))
        ⊎ ((id' ≢ id) × (lookup k srv.key_to_token ≡ some id'))
  added_cases k id' e = ground (arith, lookup-add_token_keys k id srv, out k)

  untouched :
      (k id' : ℕ)
      → lookup k srv.key_to_token ≡ some id'
      → lookup k (add_token_keys id srv).key_to_token ≡ some id'
  untouched k id' e = ground (arith, lookup-add_token_keys k id srv)

  own_keys :
      (id' : ℕ)
      → id' ≡ id
      → (lookup (srv.tokens id').access (add_token_keys id srv).key_to_token ≡ some id')
        × (lookup (srv.tokens id').refresh (add_token_keys id srv).key_to_token ≡ some id')
  own_keys id' e = rw e (
      ground (
        arith,
        lookup-add_token_keys (srv.tokens id).access id srv,
        lookup-add_token_keys (srv.tokens id).refresh id srv,
      ))

  pub add_token_keys-IsKeyed : IsKeyed (add_token_keys id srv)
  unfolding add_token_keys
  add_token_keys-IsKeyed = record {
    own = λ k id' e. own_case k id' (added_cases k id' e);
    access = λ k id' e. access_case k id' (added_cases k id' e);
    refresh = λ k id' e. refresh_case k id' (added_cases k id' e);
  }
    where
      Cases : ℕ → ℕ → Type 0
      Cases k id' =
          ((id' ≡ id) × (((srv.tokens id).access ≡ k) ⊎ ((srv.tokens id).refresh ≡ k)))
          ⊎ ((id' ≢ id) × (lookup k srv.key_to_token ≡ some id'))

      own_case :
          (k id' : ℕ) → Cases k id' → ((srv.tokens id').access ≡ k) ⊎ ((srv.tokens id').refresh ≡ k)
      own_case k id' (inl (e, c)) = rw e c
      own_case k id' (inr (ne, e)) = v.own k id' e

      access_case :
          (k id' : ℕ)
          → Cases k id'
          → lookup (srv.tokens id').access (add_token_keys id srv).key_to_token ≡ some id'
      access_case k id' (inl (e, c)) = (own_keys id' e).0
      access_case k id' (inr (ne, e)) = untouched _ id' (v.access k id' e)

      refresh_case :
          (k id' : ℕ)
          → Cases k id'
          → lookup (srv.tokens id').refresh (add_token_keys id srv).key_to_token ≡ some id'
      refresh_case k id' (inl (e, c)) = (own_keys id' e).1
      refresh_case k id' (inr (ne, e)) = untouched _ id' (v.refresh k id' e)

other_token :
    (id id' : ℕ) (t : Token) (tokens : ℕ → Token) → id' ≢ id → update tokens id t id' ≡ tokens id'
other_token id id' t tokens ne = ground arith

-- A token that is not in the table may change in any way.
pub update-Keyed :
    (id : ℕ) (t : Token) (tokens : ℕ → Token) (table : Dict ℕ)
    → Keyed tokens table
    → ((k : ℕ) → lookup k table ≢ some id)
    → Keyed (update tokens id t) table
update-Keyed id t tokens table v out = record {
  own = λ k id' e. subst (λ u. (u.access ≡ k) ⊎ (u.refresh ≡ k)) (same k id' e) (v.own k id' e);
  access =
      λ k id' e. subst (λ u. lookup u.access table ≡ some id') (same k id' e) (v.access k id' e);
  refresh =
      λ k id' e. subst (λ u. lookup u.refresh table ≡ some id') (same k id' e) (v.refresh k id' e);
}
  where
    same : (k id' : ℕ) → lookup k table ≡ some id' → tokens id' ≡ update tokens id t id'
    same k id' e = sym (other_token id id' t tokens (λ q. out k (e ∙ ap some q)))
