-- ===== src/Auth/Tests.antt =====
-- The authentication service on the sample state.
use cpy_q.Prelude.{
  ℕ, ◌≡◌, ◌≢◌, refl, ◌⊎◌, ◌<◌, Bool, ◌&&◌, true, false, Option, none, some, [], length, elem, arith,
  ◌==◌, if◌then◌else◌,
}
use cpy_q.Prelude.Dict.{lookup}
use cpy_q.Prelude.Raises.{returns, raises}
use cpy_q.Access.{User}
use cpy_q.Token.{Secrets, expired}
use cpy_q.Server.Action.{missing_key, invalid_key}
use cpy_q.Server.Sample.{owner, sample}
use cpy_q.Auth.{check_key, tokens_in, tokens_of, set_default, issue, LoginBody, login, refresh}
use cpy_q.Auth.Keys.{IsKeyed}
use cpy_q.Auth.Issue.{IsLimited}
use cpy_q.Auth.Login.{Authenticates, login-IsLimited, login-Authenticates, login-keys}
use cpy_q.Auth.SessionCopy.{issue-copies}
use cpy_q.Auth.Rotation.{IsUsable, check_key_cases, refresh_rotates}
use cpy_q.Auth.Sweep.{sweep_tokens}
use cpy_q.Auth.SweptTables.{unexpired_lookup, sweep_tokens-keys}

abbrev fresh : Secrets
fresh = record { id = 2; access = 11; refresh = 21 }

abbrev used_key : ℕ
used_key = 10

abbrev free_key : ℕ
free_key = 30

sample_own : (k id : ℕ) → lookup k sample.key_to_token ≡ some id → (10 ≡ k) ⊎ (20 ≡ k)
unfolding lookup
sample_own k id e = ground arith

sample_id : (k id : ℕ) → lookup k sample.key_to_token ≡ some id → some 1 ≡ some id
unfolding lookup
sample_id k id e = ground arith

sample-IsKeyed : IsKeyed sample
unfolding lookup
sample-IsKeyed = record { own = sample_own; access = sample_id; refresh = sample_id }

second_free : (k : ℕ) → lookup k sample.key_to_token ≢ some 2
second_free k e = cc (sample_id k 2 e)

sample-IsLimited : IsLimited sample
unfolding tokens_in lookup
sample-IsLimited u = ground arith

check_key_cases_example :
    (check_key 50 none false sample ≡ (raises missing_key, sample))
    × (((check_key 50 (some 10) false sample ≡ (returns tt, sample))
          × ((id : ℕ) × (lookup 10 sample.key_to_token ≡ some id)
              × IsUsable 50 false (sample.tokens id)))
        ⊎ ((check_key 50 (some 10) false sample ≡ (raises invalid_key, sample))
            × ((id : ℕ)
                → lookup 10 sample.key_to_token ≡ some id
                → ¬ IsUsable 50 false (sample.tokens id))))
check_key_cases_example = check_key_cases 50 10 false sample

refresh_rotates_example :
    let (r, srv') = refresh 50 fresh (some 20) sample in
    (r ≡ returns 1)
    × (lookup 11 srv'.key_to_token ≡ some 1)
    × (lookup 21 srv'.key_to_token ≡ some 1)
    × (lookup 10 srv'.key_to_token ≡ none)
    × (lookup 20 srv'.key_to_token ≡ none)
    × (lookup free_key sample.key_to_token ≢ some 1
        → free_key ≢ fresh.access
        → free_key ≢ fresh.refresh
        → lookup free_key srv'.key_to_token ≡ lookup free_key sample.key_to_token)
    × IsKeyed srv'
unfolding lookup expired
refresh_rotates_example =
    refresh_rotates 50 1 fresh sample sample-IsKeyed 20 refl refl refl refl free_key

-- The password of user 7, whose name is 70, is 77, and its hash 777.
abbrev check_password : ℕ → ℕ → Bool
check_password password hashed = (hashed == 777) && (password == 77)

abbrev get_user : ℕ → Option (User × ℕ)
get_user name = if name == 70 then some (owner, 777) else none

abbrev body : LoginBody
body = record { username = some 70; password = some 77; session_id = some 300; hashable = true }

login-IsLimited_example : IsLimited (login check_password get_user 50 fresh 301 body sample).1
login-IsLimited_example =
    login-IsLimited check_password get_user 50 fresh 301 body sample sample-IsLimited

login_2 : (login check_password get_user 50 fresh 301 body sample).0 ≡ returns 2
unfolding login issue set_default tokens_in lookup
login_2 = refl

login-Authenticates_example :
    (user : User) × Authenticates check_password get_user 50 fresh 301 body sample user
    × (length (tokens_of user.id sample) < 2)
login-Authenticates_example =
    login-Authenticates check_password get_user 50 fresh 301 body sample 2 login_2

login-keys_example :
    let srv' = (login check_password get_user 50 fresh 301 body sample).1 in
    (lookup 11 srv'.key_to_token ≡ some 2)
    × (lookup 21 srv'.key_to_token ≡ some 2)
    × ((user : User) × Authenticates check_password get_user 50 fresh 301 body sample user
        × (elem 2 (tokens_of user.id srv') ≡ true))
    × (used_key ≢ fresh.access
        → used_key ≢ fresh.refresh
        → lookup used_key srv'.key_to_token ≡ lookup used_key sample.key_to_token)
    × IsKeyed srv'
unfolding lookup
login-keys_example =
    login-keys check_password get_user 50 fresh 301 body sample 2 used_key sample-IsKeyed
      second_free refl refl login_2

issue_2 : (issue 50 fresh 301 (some 300) owner sample).0 ≡ returns 2
unfolding issue set_default tokens_in lookup
issue_2 = refl

issue-copies_example :
    let srv' = (issue 50 fresh 301 (some 300) owner sample).1 in
    let copy = (srv'.tokens 2).session in
    (lookup 300 srv'.session_id_to_session ≡ some 0)
    × (copy ≢ 0)
    × ((srv'.sessions copy).id ≡ (srv'.sessions 0).id)
    × ((srv'.sessions copy).resource_id ≡ (srv'.sessions 0).resource_id)
    × ((srv'.sessions copy).connections ≡ [])
    × (srv'.sessions 0 ≡ sample.sessions 0)
unfolding lookup
issue-copies_example =
    issue-copies 50 fresh 301 300 0 owner sample 2 refl refl (omega arith) issue_2

sweep_tokens-keys_example :
    let srv' = (sweep_tokens 5000 sample).0 in
    (lookup 10 srv'.key_to_token ≡ unexpired_lookup 5000 sample 10)
    × (srv'.tokens ≡ sample.tokens)
    × IsKeyed srv'
sweep_tokens-keys_example = sweep_tokens-keys 5000 10 sample sample-IsKeyed
