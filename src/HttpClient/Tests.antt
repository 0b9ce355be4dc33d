-- ===== src/HttpClient/Tests.antt =====
-- A request (Common/http_client.py) that is answered at its third attempt; floats are whole numbers of
-- halves.
use cpy_q.Prelude.{ℕ, ◌+◌, ◌*◌, ◌≡◌, refl, true, none, some, [], ◌∷◌, ltb, leb, ◌==◌, if◌then◌else◌}
use cpy_q.HttpClient.{
  Floats, HttpConfig, Attempt, make_request, sleep_time, react, Report, loop, request,
}
use cpy_q.HttpClient.Retries.{IsReport, request-IsReport}

abbrev halves : Floats
halves = record {
  Float = ℕ;
  nought = 0;
  half = 1;
  of_int = λ n. 2 * n;
  add = λ a b. a + b;
  mul = λ a b. a * b;
  le = leb;
  lt = ltb;
}

abbrev config : HttpConfig ℕ
config = record {
  max_retries = 5;
  max_sleep_time = 100;
  handle_ratelimits = true;
  max_retry_after = 60;
  handle_backoffs = true;
  backoff_factor = 2;
  backoff_start = 1;
  backoff_cap = 60;
}

abbrev attempt : ℕ → Attempt ℕ
attempt n =
    if n == 1
    then make_request 503 8 none
    else if n == 2
    then make_request 429 8 (some 20)
    else make_request 200 9 none

run-request :
    request halves config attempt
    ≡ some (record { ends = attempt 3; tries = 3; slept = 1 ∷ 20 ∷ []; total_slept = 21 })
unfolding request loop react sleep_time make_request
run-request = refl

request-IsReport_example :
    (r : Report halves config) × (request halves config attempt ≡ some r)
    × IsReport halves config attempt r
request-IsReport_example = request-IsReport halves config attempt refl
