-- ===== src/HttpClient/Retries.antt =====
-- The loop of `request` (Common/http_client.py): it ends, and how often it tries and how long it sleeps.
use cpy_q.Prelude.{
  ℕ, zero, suc, ◌+◌, ◌≤◌, ◌<◌, ◌≡◌, refl, sym, ap, ◌∙◌, ◌⊎◌, inl, inr, true, false, some, List, [],
  ◌∷◌, ◌++◌, length, length-append, arith, ◌==◌, Bool-cases,
}
use cpy_q.HttpClient.{
  Floats, HttpConfig, HttpException, Attempt, answers, http_exception, other_exception, sleep_time,
  gives_up, sleeps, react, Report, loop, request,
}

module _ (floats : Floats) (config : HttpConfig floats.Float) where
  abbrev pub sum : floats.Float → List floats.Float → floats.Float
  sum total [] = total
  sum total (t ∷ ts) = sum (floats.add total t) ts

  sum-append :
      (total t : floats.Float) (ts : List floats.Float)
      → sum total (ts ++ t ∷ []) ≡ floats.add (sum total ts) t
  sum-append total t [] = refl
  sum-append total t (u ∷ ts) = sum-append (floats.add total u) t ts

  -- A status for which another attempt may be made.
  abbrev pub IsTransient : Attempt floats.Float → Type 0
  IsTransient a =
      (e : HttpException floats.Float) × (a ≡ http_exception e)
      × ((e.status ≡ 429) ⊎ (500 ≤ e.status))

  react_cases :
      (tries : ℕ) (total backoff : floats.Float) (e : HttpException floats.Float)
      → floats.lt floats.nought floats.nought ≡ false
      → (react floats config tries total backoff e ≡ gives_up)
        ⊎ ((time : floats.Float) × (backoff' : floats.Float) × (react floats config tries total
                backoff e
              ≡ sleeps time (floats.add total time) backoff')
            × (tries < config.max_retries)
            × (floats.le config.max_sleep_time (floats.add total time) ≡ false)
            × ((e.status ≡ 429) ⊎ (500 ≤ e.status)))
  unfolding react sleep_time
  react_cases tries total backoff e h = ground arith

  module _ (attempt : ℕ → Attempt floats.Float) where
    -- What holds between two attempts, after so many tries.
    record Ok (tries : ℕ) (slept : List floats.Float) (total : floats.Float) : Type 0 where
      count : length slept ≡ tries
      adds : total ≡ sum floats.nought slept
      short : (slept ≡ []) ⊎ (floats.le config.max_sleep_time total ≡ false)
      room : (tries ≡ 0) ⊎ (tries < config.max_retries)
      earlier : (n : ℕ) → 1 ≤ n → n ≤ tries → IsTransient (attempt n)

    -- How a request ends.
    pub record IsReport (r : Report floats config) : Type 0 where
      pub last : r.ends ≡ attempt r.tries
      pub some_try : 1 ≤ r.tries
      pub bounded : (r.tries ≡ 1) ⊎ (r.tries ≤ config.max_retries)
      pub sleeps_between : length r.slept + 1 ≡ r.tries
      pub total : r.total_slept ≡ sum floats.nought r.slept
      pub short : (r.slept ≡ []) ⊎ (floats.le config.max_sleep_time r.total_slept ≡ false)
      pub transient : (n : ℕ) → 1 ≤ n → n < r.tries → IsTransient (attempt n)

    abbrev stop : ℕ → List floats.Float → floats.Float → Report floats config
    stop tries slept total = record {
      ends = attempt (suc tries);
      tries = suc tries;
      slept = slept;
      total_slept = total;
    }

    stop-IsReport :
        (tries : ℕ) (slept : List floats.Float) (total : floats.Float)
        → Ok tries slept total
        → IsReport (stop tries slept total)
    stop-IsReport tries slept total v = record {
      last = refl;
      some_try = omega arith;
      bounded = ground (arith, v.room);
      sleeps_between = omega (arith, v.count);
      total = v.adds;
      short = v.short;
      transient = λ n h k. v.earlier n h (omega arith);
    }

    next-Ok :
        (tries : ℕ) (slept : List floats.Float) (total time : floats.Float)
        → Ok tries slept total
        → suc tries < config.max_retries
        → floats.le config.max_sleep_time (floats.add total time) ≡ false
        → IsTransient (attempt (suc tries))
        → Ok (suc tries) (slept ++ time ∷ []) (floats.add total time)
    next-Ok tries slept total time v room short again = record {
      count = omega (arith, v.count, length-append slept (time ∷ []));
      adds = ap (λ t. floats.add t time) v.adds ∙ sym (sum-append floats.nought time slept);
      short = inr short;
      room = inr room;
      earlier = λ n h k. elim (Bool-cases (n == suc tries)) [
        | inl same ↦ rw (the_same n same) again
        | inr other ↦ v.earlier n h (ground (arith, other))
      ];
    }
      where
        the_same : (n : ℕ) → (n == suc tries) ≡ true → n ≡ suc tries
        the_same n h = ground arith

    loop-IsReport :
        (fuel tries : ℕ) (slept : List floats.Float) (total backoff : floats.Float)
        → floats.lt floats.nought floats.nought ≡ false
        → suc config.max_retries ≤ tries + fuel
        → Ok tries slept total
        → (r : Report floats config) × (loop floats config attempt fuel tries slept total backoff
            ≡ some r)
          × IsReport r
    unfolding loop
    loop-IsReport zero tries slept total backoff h enough v = absurd (ground (arith, v.room))
    loop-IsReport (suc fuel) tries slept total backoff h enough v =
        go
          (λ time total' backoff' w.
            loop-IsReport fuel (suc tries) (slept ++ time ∷ []) total' backoff' h (omega arith) w)
          (attempt (suc tries)) refl
      where
        Later : Type 0
        Later =
            (time total' backoff' : floats.Float)
            → Ok (suc tries) (slept ++ time ∷ []) total'
            → (r : Report floats config) × (loop floats config attempt fuel (suc tries)
                  (slept ++ time ∷ []) total' backoff'
                ≡ some r)
              × IsReport r

        Goal : Type 0
        Goal =
            (r : Report floats config) × (loop floats config attempt (suc fuel) tries slept total
                backoff
              ≡ some r)
            × IsReport r

        go : Later → (a : Attempt floats.Float) → attempt (suc tries) ≡ a → Goal
        go later (answers json) e =
            (stop tries slept total, ground arith, stop-IsReport tries slept total v)
        go later other_exception e =
            (stop tries slept total, ground arith, stop-IsReport tries slept total v)
        go later (http_exception error) e = elim (react_cases (suc tries) total backoff error h) [
          | inl up ↦ (stop tries slept total, ground arith, stop-IsReport tries slept total v)
          | inr (time, backoff', again, room, short, transient) ↦
              let (r, same, done) =
                later time (floats.add total time) backoff'
                  (next-Ok tries slept total time v room short (error, e, transient)) in
              (r, rw (e, loop, again) same, done)
        ]

    start-Ok : Ok 0 [] floats.nought
    start-Ok = record {
      count = refl;
      adds = refl;
      short = inl refl;
      room = inl refl;
      earlier = λ n h k. absurd (omega arith);
    }

    -- Where 0.0 < 0.0 is false, as of floats, a request ends whatever it is answered: after one attempt,
    -- or after at most `max_retries`. Its result is that of the last attempt, and each earlier one
    -- failed with the status 429 or one from 500 on. There is one sleep between two attempts, and
    -- where it slept, the sum of its sleeps is not `max_sleep_time` or more.
    pub request-IsReport :
        floats.lt floats.nought floats.nought ≡ false
        → (r : Report floats config) × (request floats config attempt ≡ some r) × IsReport r
    unfolding request
    request-IsReport h =
        loop-IsReport (suc config.max_retries) 0 [] floats.nought config.backoff_start h
          (omega arith) start-Ok
