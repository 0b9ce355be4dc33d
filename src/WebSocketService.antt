-- ===== src/WebSocketService.antt =====
-- Server/Content/websocket_service.py: how connections are registered. A proxy is a reference.
-- `prepare_ws` awaits the transport after its test, so its two stretches are two functions.
pub mod Registration
pub mod Serve
mod Tests
use cpy_q.Prelude.{ℕ, Bool, true, false, Option, none, some, if◌then◌else◌}
use cpy_q.Prelude.Dict.{Dict, lookup, contains, insert, erase}
use cpy_q.Prelude.Raises.{Raises, returns, raises}
use cpy_q.Server.{Session, Server, set_session}
use cpy_q.Server.Action.{HttpError, already_connected, crash, Action}
use cpy_q.Schedule.{Manager, connect_autopilot, disconnect_autopilot}

-- The session that a token refers to, and its connections
abbrev pub session_ref : ℕ → Server → ℕ
session_ref token srv = (srv.tokens token).session

abbrev pub connections_of : ℕ → Server → Dict ℕ
connections_of token srv = (srv.sessions (session_ref token srv)).connections

abbrev pub set_connections : ℕ → Dict ℕ → Server → Server
set_connections token connections srv =
    set_session (session_ref token srv)
      (record (srv.sessions (session_ref token srv)) { connections = connections }) srv

-- `prepare_ws` up to its `await`
unfoldable pub begin_prepare : ℕ → Action Server Unit
begin_prepare token srv =
    if contains token (connections_of token srv)
    then (raises already_connected, srv)
    else (returns tt, srv)

-- `token.session.connections[token] = proxy`
unfoldable pub finish_prepare : ℕ → ℕ → Server → Server
finish_prepare token proxy srv =
    set_connections token (insert token proxy (connections_of token srv)) srv

-- `cleanup_ws`
unfoldable pub cleanup_ws : ℕ → Server → Server
cleanup_ws token srv = set_connections token (erase token (connections_of token srv)) srv

-- The server, and the manager of its autopilots
pub record Hub : Type 0 where
  pub server : Server
  pub manager : Manager

-- The methods of AutopilotWebSocketService that extend them; a `KeyError` of the manager is raised on.
unfoldable pub finish_prepare_autopilot : ℕ → ℕ → Hub → Hub
unfolding finish_prepare
finish_prepare_autopilot token proxy hub = record {
  server = finish_prepare token proxy hub.server;
  manager = connect_autopilot token hub.manager;
}

unfoldable pub cleanup_autopilot : ℕ → Action Hub Unit
unfolding cleanup_ws
cleanup_autopilot token hub =
    let (result, manager) = disconnect_autopilot token hub.manager in
    let after : Hub = record { server = cleanup_ws token hub.server; manager = manager } in
    elim result [ returns a ↦ (returns tt, after) | raises error ↦ (raises crash, after) ]
