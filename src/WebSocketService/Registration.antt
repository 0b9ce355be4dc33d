-- ===== src/WebSocketService/Registration.antt =====
-- Connections of one token (Server/Content/websocket_service.py), one after the other and at once.
use cpy_q.Prelude.{ℕ, suc, ◌≡◌, ◌≢◌, none, some, arith}
use cpy_q.Prelude.Dict.{lookup, insert, lookup-insert, lookup-erase}
use cpy_q.Prelude.Raises.{returns, raises}
use cpy_q.Server.{Server}
use cpy_q.Server.Action.{crash, already_connected}
use cpy_q.Schedule.{connect_autopilot, disconnect_autopilot}
use cpy_q.WebSocketService.{
  connections_of, session_ref, begin_prepare, finish_prepare, cleanup_ws, Hub,
  finish_prepare_autopilot, cleanup_autopilot,
}

-- A token that is not connected is let in; while it is connected it is refused; its clean-up leaves
-- what each token of its session leads to, and every other session, as before.
pub connect_and_leave :
    (token proxy other ref : ℕ) (srv : Server)
    → lookup token (connections_of token srv) ≡ none
    → let srv₁ = finish_prepare token proxy srv in
      let srv₂ = cleanup_ws token srv₁ in
      (begin_prepare token srv ≡ (returns tt, srv))
      × (lookup token (connections_of token srv₁) ≡ some proxy)
      × (begin_prepare token srv₁ ≡ (raises already_connected, srv₁))
      × (lookup other (connections_of token srv₂) ≡ lookup other (connections_of token srv))
      × (ref ≢ session_ref token srv → srv₂.sessions ref ≡ srv.sessions ref)
unfolding begin_prepare finish_prepare cleanup_ws
connect_and_leave token proxy other ref srv absent = ground (
  arith,
  lookup-insert token token proxy (connections_of token srv),
  lookup-insert other token proxy (connections_of token srv),
  lookup-erase other token (insert token proxy (connections_of token srv)),
)

-- Two requests of one token at once, where both are tested before either is registered, are both let
-- in; the second proxy takes the place of the first, and when the first connection ends, it takes the
-- second one's registration away: for autopilots the clean-up of the second then raises.
pub both_let_in :
    (token first second : ℕ) (hub : Hub)
    → lookup token (connections_of token hub.server) ≡ none
    → let hub₁ = finish_prepare_autopilot token first hub in
      let hub₂ = finish_prepare_autopilot token second hub₁ in
      let (left, hub₃) = cleanup_autopilot token hub₂ in
      (begin_prepare token hub.server ≡ (returns tt, hub.server))
      × (lookup token (connections_of token hub₂.server) ≡ some second)
      × (left ≡ returns tt)
      × (lookup token (connections_of token hub₃.server) ≡ none)
      × ((cleanup_autopilot token hub₃).0 ≡ raises crash)
unfolding begin_prepare finish_prepare_autopilot finish_prepare cleanup_autopilot cleanup_ws
    connect_autopilot disconnect_autopilot
both_let_in token first second hub absent =
    let old = connections_of token hub.server in
    let table = insert token hub.manager.next_object hub.manager.autopilots in
    ground (
      arith,
      lookup-insert token token second (insert token first old),
      lookup-erase token token (insert token second (insert token first old)),
      lookup-insert token token (suc hub.manager.next_object) table,
      lookup-erase token token (insert token (suc hub.manager.next_object) table),
    )
