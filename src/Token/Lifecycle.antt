-- ===== src/Token/Lifecycle.antt =====
-- The life of one token (Common/token.py): which calls can change it, and when its keys are good.
use cpy_q.Prelude.{ℕ, ◌≤◌, ◌≡◌, refl, true, false, List, [], ◌∷◌, arith}
use cpy_q.Token.{Token, Secrets, Lifetimes, killed, active, expired, kill, renew, new}

-- The calls that the services make on a token, each at its time.
pub data Call : Type 0 where
  kills : ℕ → Call
  renews : ℕ → Secrets → Call

unfoldable pub call : Lifetimes → Call → Token → Token
unfolding kill renew
call times (kills now) token = (kill now token).0
call times (renews now secrets) token = (renew now times secrets token).0

unfoldable pub run : Lifetimes → List Call → Token → Token
run times [] token = token
run times (c ∷ cs) token = run times cs (call times c token)

-- The access key does not outlive the refresh key.
abbrev pub IsOrdered : Token → Type 0
IsOrdered token = token.access_expires ≤ token.refresh_expires

call-IsOrdered :
    (times : Lifetimes) (c : Call) (token : Token)
    → times.access_time ≤ times.refresh_time
    → IsOrdered token
    → IsOrdered (call times c token)
unfolding call
call-IsOrdered times (kills now) token h o = ground arith
call-IsOrdered times (renews now secrets) token h o = ground arith

run-IsOrdered :
    (times : Lifetimes) (cs : List Call) (token : Token)
    → times.access_time ≤ times.refresh_time
    → IsOrdered token
    → IsOrdered (run times cs token)
unfolding run
run-IsOrdered times [] token h o = o
run-IsOrdered times (c ∷ cs) token h o =
    run-IsOrdered times cs (call times c token) h (call-IsOrdered times c token h o)

-- Where access keys are not configured to live longer than refresh keys, a token that is good for
-- access can be renewed and killed too, after any calls on it: `active` implies not `expired`.
pub active-expired :
    (times : Lifetimes) (start now session : ℕ) (secrets : Secrets) (cs : List Call)
    → times.access_time ≤ times.refresh_time
    → active now (run times cs (new start times secrets session)) ≡ true
    → expired now (run times cs (new start times secrets session)) ≡ false
unfolding active expired
active-expired times start now session secrets cs h a =
    ground (
      arith,
      run-IsOrdered times cs (new start times secrets session) h (unfold new in omega arith),
    )

call-killed :
    (times : Lifetimes) (c : Call) (token : Token)
    → killed token ≡ true
    → call times c token ≡ token
unfolding call
call-killed times (kills now) token k = ground arith
call-killed times (renews now secrets) token k = ground arith

run-killed :
    (times : Lifetimes) (cs : List Call) (token : Token)
    → killed token ≡ true
    → run times cs token ≡ token
unfolding run
run-killed times [] token k = refl
run-killed times (c ∷ cs) token k = rw (call-killed times c token k) (run-killed times cs token k)

kill-killed :
    (now : ℕ) (token : Token) → (kill now token).1 ≡ true → killed (kill now token).0 ≡ true
unfolding kill
kill-killed now token h = ground arith

-- A kill that succeeds is final: no later sequence of calls changes the token, and at no time is
-- it good for access or for a renewal again.
pub kill-final :
    (times : Lifetimes) (t now : ℕ) (token : Token) (cs : List Call)
    → (kill t token).1 ≡ true
    → let dead = (kill t token).0 in
      (run times cs dead ≡ dead) × (active now dead ≡ false) × (expired now dead ≡ true)
kill-final times t now token cs h =
    let k = kill-killed t token h in
    (run-killed times cs (kill t token).0 k, inactive (kill t token).0 k, gone (kill t token).0 k)
  where
    inactive : (dead : Token) → killed dead ≡ true → active now dead ≡ false
    inactive dead k = unfold active in ground arith

    gone : (dead : Token) → killed dead ≡ true → expired now dead ≡ true
    gone dead k = unfold expired in ground arith
