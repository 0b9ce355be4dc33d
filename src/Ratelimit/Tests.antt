-- ===== src/Ratelimit/Tests.antt =====
-- `check_ratelimit` of Common/utils.py at concrete times.
use cpy_q.Prelude.{ℕ, ◌≤◌, ◌≡◌, refl, List, [], ◌∷◌, arith}
use cpy_q.Ratelimit.{recent, check_ratelimit}
use cpy_q.Ratelimit.Window.{start, calls, within, calls-within-le}

abbrev times : List ℕ
times = 1 ∷ 4 ∷ 5 ∷ 6 ∷ 7 ∷ 11 ∷ []

abbrev two_hits : List ℕ
two_hits = 1 ∷ 4 ∷ []

log-calls : (calls 2 5 times start).log ≡ 1 ∷ 4 ∷ 6 ∷ 11 ∷ []
unfolding calls check_ratelimit recent
log-calls = refl

calls-within-le_example : within 3 5 (calls 2 5 times start).log ≤ 2
calls-within-le_example = calls-within-le 2 5 times (omega arith) 3
