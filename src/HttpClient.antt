-- ===== src/HttpClient.antt =====
-- Common/http_client.py: the class HTTPClient. What the other side answers to each attempt is an
-- argument. Python's floats are those of a record: their arithmetic is only called.
pub mod Retries
mod Tests
use cpy_q.Prelude.{
  ℕ, zero, suc, ◌+◌, ◌*◌, ◌-◌, ◌&&◌, Bool, true, false, Option, none, some, List, [], ◌∷◌, ◌++◌,
  ltb, leb, ◌==◌, if◌then◌else◌,
}
use cpy_q.Prelude.Raises.{Raises, returns, raises}

-- The operations on floats that `request` uses, with the constants 0 and 0.5.
pub record Floats : Type 1 where
  pub Float : Type 0
  pub nought : Float
  pub half : Float
  pub of_int : ℕ → Float
  pub add : Float → Float → Float
  pub mul : Float → Float → Float
  pub le : Float → Float → Bool
  pub lt : Float → Float → Bool

-- `HTTPConfig` of Common/config.py
pub record HttpConfig (F : Type 0) : Type 0 where
  pub max_retries : ℕ
  pub max_sleep_time : F
  pub handle_ratelimits : Bool
  pub max_retry_after : F
  pub handle_backoffs : Bool
  pub backoff_factor : F
  pub backoff_start : F
  pub backoff_cap : F

-- `HTTPException` of Common/errors.py; `retry_after` is what `get_retry_after` makes of its headers.
pub record HttpException (F : Type 0) : Type 0 where
  pub status : ℕ
  pub retry_after : Option F

-- How `make_request` ends; any exception but `HTTPException` passes through `request`.
pub data Attempt (F : Type 0) : Type 0 where
  answers : ℕ → Attempt F
  http_exception : HttpException F → Attempt F
  other_exception : Attempt F

-- `make_request`, where the session is open, from the response: its status, its JSON, and its
-- header `Retry-After`
unfoldable pub make_request : {F : Type 0} → ℕ → ℕ → Option F → Attempt F
make_request status json retry_after =
    if leb 200 status && ltb status 300
    then answers json
    else http_exception (record { status = status; retry_after = retry_after })

module _ (floats : Floats) (config : HttpConfig floats.Float) where
  -- The sleep time and the backoff after the tests of the status
  unfoldable pub sleep_time :
      ℕ → floats.Float → HttpException floats.Float → floats.Float × floats.Float
  sleep_time tries backoff error =
      if error.status == 429
      then elim error.retry_after [
        | some retry_after ↦ (
          if config.handle_ratelimits && floats.le retry_after config.max_retry_after
              then retry_after
              else floats.nought,
          backoff,
        )
        | none ↦
            let longer = floats.mul backoff config.backoff_factor in
            (
              if config.handle_backoffs && floats.le longer config.backoff_cap
                  then longer
                  else floats.nought,
              longer,
            )
      ]
      else if leb 500 error.status
      then (floats.add (floats.of_int (2 * (tries - 1))) floats.half, backoff)
      else (floats.nought, backoff)

  -- What follows an `HTTPException`: it is raised again, or there is a sleep of so long before the next
  -- attempt, with the new `total_slept` and `backoff`.
  pub data Reaction : Type 0 where
    gives_up : Reaction
    sleeps : floats.Float → floats.Float → floats.Float → Reaction

  unfoldable pub react : ℕ → floats.Float → floats.Float → HttpException floats.Float → Reaction
  react tries total_slept backoff error =
      let (time, backoff') = sleep_time tries backoff error in
      let total' = floats.add total_slept time in
      if leb config.max_retries tries
      then gives_up
      else if floats.lt floats.nought time
      then (if floats.le config.max_sleep_time total'
          then gives_up
          else sleeps time total' backoff')
      else gives_up

  -- How `request` ends, after how many attempts, with the times that it slept.
  pub record Report : Type 0 where
    pub ends : Attempt floats.Float
    pub tries : ℕ
    pub slept : List floats.Float
    pub total_slept : floats.Float

  module _ (attempt : ℕ → Attempt floats.Float) where
    -- The loop of `request`, on fuel
    unfoldable pub loop : ℕ → ℕ → List floats.Float → floats.Float → floats.Float → Option Report
    loop zero tries slept total_slept backoff = none
    loop (suc fuel) tries slept total_slept backoff =
        let stop = some (record {
          ends = attempt (suc tries);
          tries = suc tries;
          slept = slept;
          total_slept = total_slept;
        }) in
        elim (attempt (suc tries)) [
          | answers json ↦ stop
          | other_exception ↦ stop
          | http_exception error ↦ elim (react (suc tries) total_slept backoff error) [
            | gives_up ↦ stop
            | sleeps time total' backoff' ↦
                loop fuel (suc tries) (slept ++ time ∷ []) total' backoff'
          ]
        ]

    -- The last attempt is the one of the number `max_retries`, or the first.
    unfoldable pub request : Option Report
    unfolding loop
    request = loop (suc config.max_retries) 0 [] floats.nought config.backoff_start
