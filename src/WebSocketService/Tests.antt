-- ===== src/WebSocketService/Tests.antt =====
-- Token 1 of the sample state connects as proxy 60, and at once as proxy 61.
use cpy_q.Prelude.{ℕ, ◌≡◌, refl, ◌⊎◌, true, false, none, some}
use cpy_q.Prelude.Dict.{lookup, contains}
use cpy_q.Prelude.Raises.{Raises, returns, raises}
use cpy_q.Codecs.{Clock}
use cpy_q.WebSocketService.Serve.{autopilot_service, serve_ws, serve_ws_clean}
use cpy_q.Server.Action.{HttpError, crash, already_connected}
use cpy_q.Server.Sample.{sample}
use cpy_q.Schedule.{new_manager}
use cpy_q.WebSocketService.{
  connections_of, begin_prepare, Hub, finish_prepare_autopilot, cleanup_autopilot,
}
use cpy_q.WebSocketService.Registration.{both_let_in}

abbrev hub : Hub
hub = record { server = sample; manager = new_manager }

both_let_in_example :
    let hub₁ = finish_prepare_autopilot 1 60 hub in
    let hub₂ = finish_prepare_autopilot 1 61 hub₁ in
    let (left, hub₃) = cleanup_autopilot 1 hub₂ in
    (begin_prepare 1 sample ≡ (returns tt, sample))
    × (lookup 1 (connections_of 1 hub₂.server) ≡ some 61)
    × (left ≡ returns tt)
    × (lookup 1 (connections_of 1 hub₃.server) ≡ none)
    × ((cleanup_autopilot 1 hub₃).0 ≡ raises crash)
unfolding lookup
both_let_in_example = both_let_in 1 60 61 hub refl

abbrev clock : Clock
clock = record { Time = ℕ; is_aware = λ t. true; strftime = λ t. t; strptime = λ s. some s }

abbrev prepared : Raises HttpError Unit
prepared = returns tt

-- The transport fails while the handshake is sent.
serve_ws_clean_example :
    let opened = finish_prepare_autopilot 1 60 hub in
    let (result, left) =
      serve_ws clock
        (autopilot_service 1 60)
        5
        (λ h. h)
        prepared
        (λ handshake h. (raises crash, h))
        hub in
    ((contains 1 (connections_of 1 hub.server) ≡ true)
      × (result ≡ raises already_connected)
      × (left ≡ hub))
    ⊎ ((contains 1 (connections_of 1 hub.server) ≡ false)
        × (((error : HttpError) × (prepared ≡ raises error)
              × (result ≡ raises error)
              × (left ≡ hub))
            ⊎ ((prepared ≡ returns tt)
                × (lookup 1 (connections_of 1 left.server) ≡ none)
                × (lookup 1 left.manager.autopilots ≡ none)
                × ((result ≡ raises crash) ⊎ (result ≡ raises crash)))))
serve_ws_clean_example =
    serve_ws_clean clock 1 60 5 (λ h. h) prepared (λ handshake h. (raises crash, h)) hub
