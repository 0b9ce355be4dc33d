-- ===== src/Auth/Sweeping.antt =====
-- The loop over the keys in the task of `AuthService` (Server/Content/auth_service.py), by rounds.
use cpy_q.Prelude.{
  ℕ, ◌≡◌, sym, subst, ◌∙◌, ◌⊎◌, inl, inr, true, false, none, some, List, [], ◌∷◌, Occurs, arith,
  ◌==◌, Bool-cases, Option-cases,
}
use cpy_q.Prelude.Dict.{Dict, lookup}
use cpy_q.Token.{expired}
use cpy_q.Server.{Server}
use cpy_q.Auth.{pop_token_keys}
use cpy_q.Auth.Keys.{IsKeyed, lookup-pop_token_keys, pop_token_keys-IsKeyed}
use cpy_q.Auth.Sweep.{keys, session_of, discard_token, sweep_key, sweep_keys}

pub lookup-keys :
    {V : Type 0} (k : ℕ) (v : V) (d : Dict V) → lookup k d ≡ some v → Occurs k (keys d)
unfolding lookup
lookup-keys k v [] h = cc
lookup-keys k v (e ∷ d) h = elim (Bool-cases (k == e.0)) [
  | inl hit ↦ inl (ground (arith, hit))
  | inr miss ↦ inr (lookup-keys k v d (ground (arith, miss)))
]

abbrev pub Gone : ℕ → Server → ℕ → Type 0
Gone now old k =
    (id : ℕ) × (lookup k old.key_to_token ≡ some id) × (expired now (old.tokens id) ≡ true)

-- How far the loop over the keys has come: tokens are as before, each key of the table leads where
-- it led or is gone with its expired token, and each key belongs to its token.
pub record Swept (now : ℕ) (old srv : Server) : Type 0 where
  pub same_tokens : srv.tokens ≡ old.tokens
  pub kept_or_expired :
      (k : ℕ)
      → (lookup k srv.key_to_token ≡ lookup k old.key_to_token)
        ⊎ ((lookup k srv.key_to_token ≡ none) × Gone now old k)
  pub keyed : IsKeyed srv

-- The state after one expired token is taken out.
abbrev dropped : ℕ → Server → Server
dropped id srv = discard_token (session_of id srv).user.id id (pop_token_keys id srv)

pop_cases :
    (k id j : ℕ) (srv : Server)
    → IsKeyed srv
    → lookup k srv.key_to_token ≡ some id
    → (lookup j (pop_token_keys id srv).key_to_token ≡ lookup j srv.key_to_token)
      ⊎ ((lookup j (pop_token_keys id srv).key_to_token ≡ none)
          × (lookup j srv.key_to_token ≡ some id))
pop_cases k id j srv v h =
    ground (arith, lookup-pop_token_keys j id srv, v.access k id h, v.refresh k id h)

dropped-Swept :
    (now k id : ℕ) (old srv : Server)
    → Swept now old srv
    → lookup k srv.key_to_token ≡ some id
    → expired now (srv.tokens id) ≡ true
    → Swept now old (dropped id srv)
unfolding discard_token
dropped-Swept now k id old srv s h e = record {
  same_tokens = unfold pop_token_keys in s.same_tokens;
  kept_or_expired = λ j. joined j (pop_cases k id j srv s.keyed h) (s.kept_or_expired j);
  keyed = pop_token_keys-IsKeyed k id srv s.keyed h;
}
  where
    over : expired now (old.tokens id) ≡ true
    over = subst (λ f. expired now (f id) ≡ true) s.same_tokens e

    joined :
        (j : ℕ)
        → (lookup j (pop_token_keys id srv).key_to_token ≡ lookup j srv.key_to_token)
          ⊎ ((lookup j (pop_token_keys id srv).key_to_token ≡ none)
              × (lookup j srv.key_to_token ≡ some id))
        → (lookup j srv.key_to_token ≡ lookup j old.key_to_token)
          ⊎ ((lookup j srv.key_to_token ≡ none) × Gone now old j)
        → (lookup j (pop_token_keys id srv).key_to_token ≡ lookup j old.key_to_token)
          ⊎ ((lookup j (pop_token_keys id srv).key_to_token ≡ none) × Gone now old j)
    joined j (inl same) (inl kept) = inl (same ∙ kept)
    joined j (inl same) (inr (away, gone)) = inr (same ∙ away, gone)
    joined j (inr (away, was)) (inl kept) = inr (away, (id, sym kept ∙ was, over))
    joined j (inr (away, was)) (inr (none_left, gone)) = cc

-- What one round of the loop does.
data Round (now k : ℕ) (srv next : Server) : Type 0 where
  skips : lookup k srv.key_to_token ≡ none → next ≡ srv → Round now k srv next
  drops :
      (id : ℕ)
      → lookup k srv.key_to_token ≡ some id
      → expired now (srv.tokens id) ≡ true
      → next ≡ dropped id srv
      → Round now k srv next
  leaves :
      (id : ℕ)
      → lookup k srv.key_to_token ≡ some id
      → expired now (srv.tokens id) ≡ false
      → next ≡ srv
      → Round now k srv next

sweep_key-Round :
    (now k : ℕ) (srv : Server) (cons : List ℕ) → Round now k srv (sweep_key now k (srv, cons)).0
unfolding sweep_key
sweep_key-Round now k srv cons = elim (Option-cases (lookup k srv.key_to_token)) [
  | inl e ↦ skips e (rw (e, sweep_key))
  | inr (id, e) ↦ elim (Bool-cases (expired now (srv.tokens id))) [
    | inl over ↦ drops id e over (rw (e, sweep_key, over))
    | inr good ↦ leaves id e good (rw (e, sweep_key, good))
  ]
]

-- The key leads to no expired token.
abbrev pub IsClean : ℕ → Server → ℕ → Type 0
IsClean now srv k =
    (id : ℕ) → lookup k srv.key_to_token ≡ some id → expired now (srv.tokens id) ≡ false

dropped-IsClean :
    (now k j id : ℕ) (srv : Server)
    → IsKeyed srv
    → lookup k srv.key_to_token ≡ some id
    → IsClean now srv j
    → IsClean now (dropped id srv) j
unfolding discard_token
dropped-IsClean now k j id srv v h c id' e =
    unfold pop_token_keys in c id' (still (pop_cases k id j srv v h))
  where
    still :
        (lookup j (pop_token_keys id srv).key_to_token ≡ lookup j srv.key_to_token)
          ⊎ ((lookup j (pop_token_keys id srv).key_to_token ≡ none)
              × (lookup j srv.key_to_token ≡ some id))
        → lookup j srv.key_to_token ≡ some id'
    still (inl same) = sym same ∙ e
    still (inr (away, was)) = cc (away, e)

dropped_self :
    (now k id : ℕ) (srv : Server)
    → IsKeyed srv
    → lookup k srv.key_to_token ≡ some id
    → IsClean now (dropped id srv) k
unfolding discard_token
dropped_self now k id srv v h id' e = ground (arith, lookup-pop_token_keys k id srv, v.own k id h)

-- A round keeps all that, leaves its own key clean, and leaves clean keys clean.
Round-Swept :
    (now k : ℕ) (old srv next : Server)
    → Round now k srv next
    → Swept now old srv
    → Swept now old next × IsClean now next k × ((j : ℕ) → IsClean now srv j → IsClean now next j)
Round-Swept now k old srv next (skips e n) s = rw n (s, (λ id h. cc), λ j c. c)
Round-Swept now k old srv next (drops id e over n) s = rw n (
  dropped-Swept now k id old srv s e over,
  dropped_self now k id srv s.keyed e,
  λ j. dropped-IsClean now k j id srv s.keyed e,
)
Round-Swept now k old srv next (leaves id e good n) s = rw n (s, (λ id' h. ground arith), λ j c. c)

pub sweep_keys-Swept :
    (now : ℕ) (ks : List ℕ) (old srv : Server) (cons : List ℕ)
    → Swept now old srv
    → let next = (sweep_keys now ks (srv, cons)).0 in
      Swept now old next
      × ((j : ℕ) → IsClean now srv j → IsClean now next j)
      × ((k : ℕ) → Occurs k ks → IsClean now next k)
unfolding sweep_keys
sweep_keys-Swept now [] old srv cons s = (s, (λ j c. c), λ k here. elim here [ ])
sweep_keys-Swept now (k ∷ ks) old srv cons s =
    let st = sweep_key now k (srv, cons) in
    let (s', clean, stays) = Round-Swept now k old srv st.0 (sweep_key-Round now k srv cons) s in
    let (s'', stays', each) = sweep_keys-Swept now ks old st.0 st.1 s' in
    (s'', (λ j c. stays' j (stays j c)), λ j o. pick j o clean stays' each)
  where
    pick :
        (j : ℕ)
        → Occurs j (k ∷ ks)
        → IsClean now (sweep_key now k (srv, cons)).0 k
        → ((i : ℕ)
            → IsClean now (sweep_key now k (srv, cons)).0 i
            → IsClean now (sweep_keys now ks (sweep_key now k (srv, cons))).0 i)
        → ((i : ℕ)
            → Occurs i ks
            → IsClean now (sweep_keys now ks (sweep_key now k (srv, cons))).0 i)
        → IsClean now (sweep_keys now ks (sweep_key now k (srv, cons))).0 j
    pick j (inl e) clean stays each = rw e (stays k clean)
    pick j (inr there) clean stays each = each j there
