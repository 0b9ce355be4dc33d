-- ===== src/Token/Tests.antt =====
-- Tokens (Common/token.py) at concrete times.
use cpy_q.Prelude.{◌≡◌, refl, true, false, List, [], ◌∷◌, arith}
use cpy_q.Token.{Secrets, Lifetimes, active, expired, kill, renew, new}
use cpy_q.Token.Lifecycle.{Call, renews, call, run, active-expired, kill-final}

abbrev times : Lifetimes
times = record { access_time = 900; refresh_time = 3600 }

abbrev first : Secrets
first = record { id = 1; access = 10; refresh = 20 }

abbrev second : Secrets
second = record { id = 1; access = 11; refresh = 21 }

abbrev history : List Call
history = renews 500 second ∷ []

active-expired_example : expired 1300 (run times history (new 0 times first 5)) ≡ false
unfolding run call renew new active expired
active-expired_example = active-expired times 0 1300 5 first history (omega arith) refl

kill-final_example :
    let dead = (kill 40 (new 0 times first 5)).0 in
    (run times history dead ≡ dead) × (active 50 dead ≡ false) × (expired 50 dead ≡ true)
unfolding new kill
kill-final_example = kill-final times 40 50 (new 0 times first 5) history refl
