-- ===== src/WebSocketService/Serve.antt =====
-- `serve_ws` of Server/Content/websocket_service.py, for both services: the registration, the handshake
-- that is built and handed to the proxy, and the clean-up, which runs however the rest ends.
use cpy_q.Prelude.{
  ℕ, ◌≡◌, refl, ap, ◌∙◌, ◌⊎◌, inl, inr, Bool, true, false, none, some, arith, Bool-cases,
}
use cpy_q.Prelude.Dict.{lookup, contains, lookup-erase}
use cpy_q.Prelude.Raises.{Raises, returns, raises}
use cpy_q.Server.{Server}
use cpy_q.Server.Action.{HttpError, already_connected, crash, Action}
use cpy_q.Schedule.{disconnect_autopilot}
use cpy_q.WebSocketService.{
  connections_of, begin_prepare, finish_prepare, cleanup_ws, Hub, finish_prepare_autopilot,
  cleanup_autopilot,
}
use cpy_q.Codecs.Trees.{real, plain, member_of, object, no_members, member}
use cpy_q.Codecs.{
  CodecError, Clock, Object, lookup_entry, validate, decode_enum, decode_leaf, decode, make,
  set_attributes,
}
use cpy_q.Codecs.Key
use cpy_q.Codecs.Classes
use cpy_q.Codecs.Metaclass.{all_codecs, update, inherited, set_field}
use cpy_q.Codecs.Messages.{set_entry, build, build_handshake}

-- What a subclass of BaseWebSocketService has of its own: the two stretches of `prepare_ws`, for a token
-- and a proxy, and `cleanup_ws`; and whether it is for autopilots.
pub record Service (S : Type 0) : Type 0 where
  pub begin : Action S Unit
  pub finish : S → S
  pub cleanup : Action S Unit
  pub autopilot : Bool

-- UserWebSocketService
abbrev pub user_service : ℕ → ℕ → Service Server
user_service token proxy = record {
  begin = begin_prepare token;
  finish = finish_prepare token proxy;
  cleanup = λ srv. (returns tt, cleanup_ws token srv);
  autopilot = false;
}

abbrev on_server : Raises HttpError Unit × Server → Hub → Raises HttpError Unit × Hub
on_server (result, srv) hub = (result, record hub { server = srv })

-- AutopilotWebSocketService
abbrev pub autopilot_service : ℕ → ℕ → Service Hub
autopilot_service token proxy = record {
  begin = λ hub. on_server (begin_prepare token hub.server) hub;
  finish = finish_prepare_autopilot token proxy;
  cleanup = cleanup_autopilot token;
  autopilot = true;
}

module _ {S : Type 0} where
  -- An exception of the `finally` takes the place of what the `try` ended with.
  abbrev pub ended_with :
      Raises HttpError Unit → Raises HttpError Unit × S → Raises HttpError Unit × S
  ended_with result (raises error, s) = (raises error, s)
  ended_with result (returns a, s) = (result, s)

  abbrev pub finally : Action S Unit → Raises HttpError Unit × S → Raises HttpError Unit × S
  finally cleanup (result, s) = ended_with result (cleanup s)

  -- What the `try` does with the handshake, once it is built
  abbrev pub with_handshake :
      {A : Type 0} → (A → Action S Unit) → Raises CodecError A → Action S Unit
  with_handshake rest (returns handshake) s = rest handshake s
  with_handshake rest (raises error) s = (raises crash, s)

  -- After the test of `prepare_ws`: `meanwhile` is what the server does while the transport is prepared,
  -- and `prepared` what `response.prepare` ends with, an exception where the request is no WebSocket
  -- upgrade; `rest` sends the handshake and reads until the proxy closes, with all that happens
  -- meanwhile.
  abbrev pub served :
      (clock : Clock)
      → Service S
      → ℕ
      → (S → S)
      → Raises HttpError Unit
      → (Object clock → Action S Unit)
      → Raises HttpError Unit × S
      → Raises HttpError Unit × S
  served clock service ack_timeout meanwhile prepared rest (raises error, s) = (raises error, s)
  served clock service ack_timeout meanwhile (raises error) rest (returns a, s) =
      (raises error, meanwhile s)
  served clock service ack_timeout meanwhile (returns b) rest (returns a, s) =
      finally service.cleanup (
        with_handshake rest (build_handshake clock service.autopilot ack_timeout)
          (service.finish (meanwhile s)))

  unfoldable pub serve_ws :
      (clock : Clock)
      → Service S
      → ℕ
      → (S → S)
      → Raises HttpError Unit
      → (Object clock → Action S Unit)
      → Action S Unit
  serve_ws clock service ack_timeout meanwhile prepared rest s =
      served clock service ack_timeout meanwhile prepared rest (service.begin s)

module _ (clock : Clock) where
  -- The handshake of the policy's time limit
  abbrev pub handshake_of : Bool → ℕ → Object clock
  handshake_of false ack_timeout = object 10 (
      member Key.kind Classes.payload_kind (member_of 3 (some 0))
        (member Key.ack_timeout Classes.float_codec (plain (real ack_timeout)) no_members))
  handshake_of true ack_timeout = object 11 (
      member Key.kind Classes.payload_kind (member_of 3 (some 1))
        (member Key.ack_timeout Classes.float_codec (plain (real ack_timeout)) no_members))

  -- `build_handshake` never raises.
  build_handshake-handshake_of :
      (autopilot : Bool) (ack_timeout : ℕ)
      → build_handshake clock autopilot ack_timeout ≡ returns (handshake_of autopilot ack_timeout)
  unfolding build_handshake build set_entry make set_attributes decode decode_leaf decode_enum
      validate lookup_entry all_codecs update inherited set_field
  build_handshake-handshake_of false ack_timeout = refl
  build_handshake-handshake_of true ack_timeout = refl

  Raises-cases :
      (result : Raises HttpError Unit)
      → ((error : HttpError) × (result ≡ raises error)) ⊎ (result ≡ returns tt)
  Raises-cases (raises error) = inl (error, refl)
  Raises-cases (returns a) = inr refl

  serve_ws_cases :
      (token proxy ack_timeout : ℕ) (meanwhile : Hub → Hub) (prepared : Raises HttpError Unit)
      (rest : Object clock → Action Hub Unit) (hub : Hub)
      → let end =
          serve_ws clock (autopilot_service token proxy) ack_timeout meanwhile prepared rest hub in
        ((contains token (connections_of token hub.server) ≡ true)
          × (end ≡ (raises already_connected, hub)))
        ⊎ ((contains token (connections_of token hub.server) ≡ false)
            × (((error : HttpError) × (prepared ≡ raises error)
                  × (end ≡ (raises error, meanwhile hub)))
                ⊎ ((prepared ≡ returns tt)
                    × (end
                        ≡ finally (cleanup_autopilot token) (
                            rest
                              (handshake_of true ack_timeout)
                              (finish_prepare_autopilot token proxy (meanwhile hub)))))))
  unfolding serve_ws begin_prepare
  serve_ws_cases token proxy ack_timeout meanwhile prepared rest hub =
      elim (Bool-cases (contains token (connections_of token hub.server))) [
        | inl there ↦ inl (there, rw there refl)
        | inr absent ↦ elim (Raises-cases prepared) [
          | inl (error, e) ↦ inr (absent, inl (error, e, rw (absent, e) refl))
          | inr e ↦
              inr (
                absent,
                inr (e, rw (absent, e, build_handshake-handshake_of true ack_timeout) refl),
              )
        ]
      ]

  cleanup_autopilot_clean :
      (token : ℕ) (result : Raises HttpError Unit) (hub : Hub)
      → (lookup token
            (connections_of token (finally (cleanup_autopilot token) (result, hub)).1.server)
          ≡ none)
        × (lookup token (finally (cleanup_autopilot token) (result, hub)).1.manager.autopilots
            ≡ none)
  unfolding cleanup_autopilot cleanup_ws disconnect_autopilot
  cleanup_autopilot_clean token result hub = ground (
    arith,
    lookup-erase token token (connections_of token hub.server),
    lookup-erase token token hub.manager.autopilots,
  )

  ended_cases :
      (result : Raises HttpError Unit) (cleaned : Raises HttpError Unit × Hub)
      → (cleaned.0 ≡ returns tt) ⊎ (cleaned.0 ≡ raises crash)
      → ((ended_with result cleaned).0 ≡ result) ⊎ ((ended_with result cleaned).0 ≡ raises crash)
  ended_cases result (returns a, hub) h = inl refl
  ended_cases result (raises error, hub) h = inr (elim h [ inl e ↦ cc | inr e ↦ e ])

  cleanup_autopilot_ends :
      (token : ℕ) (hub : Hub)
      → ((cleanup_autopilot token hub).0 ≡ returns tt)
        ⊎ ((cleanup_autopilot token hub).0 ≡ raises crash)
  unfolding cleanup_autopilot disconnect_autopilot
  cleanup_autopilot_ends token hub = ground arith

  -- A WebSocket request of an autopilot's token that is connected is refused, and changes nothing. Where
  -- the transport cannot be prepared, the request ends with that exception, and nothing is registered.
  -- Any other is served with the handshake of the policy's time limit, and however that ends, and
  -- whatever the server does in the meantime, the token is then neither among its session's connections
  -- nor among the autopilots; the request ends as the `try` did, or with the exception of the clean-up.
  pub serve_ws_clean :
      (token proxy ack_timeout : ℕ) (meanwhile : Hub → Hub) (prepared : Raises HttpError Unit)
      (rest : Object clock → Action Hub Unit) (hub : Hub)
      → let opened = finish_prepare_autopilot token proxy (meanwhile hub) in
        let (result, left) =
          serve_ws clock (autopilot_service token proxy) ack_timeout meanwhile prepared rest hub in
        ((contains token (connections_of token hub.server) ≡ true)
          × (result ≡ raises already_connected)
          × (left ≡ hub))
        ⊎ ((contains token (connections_of token hub.server) ≡ false)
            × (((error : HttpError) × (prepared ≡ raises error)
                  × (result ≡ raises error)
                  × (left ≡ meanwhile hub))
                ⊎ ((prepared ≡ returns tt)
                    × (lookup token (connections_of token left.server) ≡ none)
                    × (lookup token left.manager.autopilots ≡ none)
                    × ((result ≡ (rest (handshake_of true ack_timeout) opened).0)
                        ⊎ (result ≡ raises crash)))))
  serve_ws_clean token proxy ack_timeout meanwhile prepared rest hub =
      let opened = finish_prepare_autopilot token proxy (meanwhile hub) in
      let (result, after) = rest (handshake_of true ack_timeout) opened in
      let clean = cleanup_autopilot_clean token result after in
      elim (serve_ws_cases token proxy ack_timeout meanwhile prepared rest hub) [
        | inl (there, e) ↦ inl (there, ap (λ x. x.0) e, ap (λ x. x.1) e)
        | inr (absent, inl (error, p, e)) ↦
            inr (absent, inl (error, p, ap (λ x. x.0) e, ap (λ x. x.1) e))
        | inr (absent, inr (p, e)) ↦ inr (
          absent,
          inr (
            p,
            ap (λ x. lookup token (connections_of token x.1.server)) e ∙ clean.0,
            ap (λ x. lookup token x.1.manager.autopilots) e ∙ clean.1,
            elim (ended_cases result (cleanup_autopilot token after)
                (cleanup_autopilot_ends token after)) [
                  | inl same ↦ inl (ap (λ x. x.0) e ∙ same)
                  | inr crashed ↦ inr (ap (λ x. x.0) e ∙ crashed)
                ],
          ),
        )
      ]
