-- ===== src/Guards/Tests.antt =====
-- Requests with the keys of the sample state behind the decorators.
use cpy_q.Prelude.{ℕ, ◌≡◌, ◌⊎◌, ◌<◌, true, false, none, some, [], length}
use cpy_q.Prelude.Raises.{returns, raises}
use cpy_q.Ratelimit.{recent}
use cpy_q.Access.{User}
use cpy_q.Server.{set_session}
use cpy_q.Server.Action.{HttpError, Action}
use cpy_q.Server.Sample.{owner, session, sample}
use cpy_q.Guards.{Request, bearer, user_from_request, by_token, Guarded}
use cpy_q.Guards.Order.{IsAuthenticated, guarded, counted, guarded_cases}

abbrev request : Request
request = record {
  access = none;
  authorization = some (bearer 10);
  forwarded_for = none;
  real_ip = none;
  remote = some 5;
  route_name = some 6;
}

abbrev quiet : Guarded
quiet = record { server = sample; hits = λ bucket source. [] }

-- A handler that returns the number of hits of token 1.
abbrev handler : Action Guarded ℕ
handler st = (returns (length (st.hits by_token (some 1))), st)

guarded_cases_example :
    ((e : HttpError) × (guarded false 50 request 10 60 by_token handler quiet
        ≡ (raises e, counted false 50 request 10 60 by_token handler quiet))
      × ((counted false 50 request 10 60 by_token handler quiet).server ≡ sample))
    ⊎ ((guarded false 50 request 10 60 by_token handler quiet
          ≡ handler (counted false 50 request 10 60 by_token handler quiet))
        × ((counted false 50 request 10 60 by_token handler quiet).server ≡ sample)
        × IsAuthenticated 50 request sample
        × ((user : User) × (user_from_request request sample ≡ some user)
            × (user.autopilot ≡ false))
        × (length (recent 50 60 []) < 10))
guarded_cases_example = guarded_cases false 50 request 10 60 by_token handler quiet

abbrev pilots : Guarded
pilots = record {
  server = set_session 1 (record (session 1) { user = record owner { autopilot = true } }) sample;
  hits = λ bucket source. [];
}
