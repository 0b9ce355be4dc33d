-- ===== src/Proxy/Tests.antt =====
-- A server's proxy (Common/WebSocket/response.py) for an autopilot: it sends its handshake, which is
-- acknowledged, gets an event, and closes when the same event comes again.
use cpy_q.Prelude.{ℕ, ◌≡◌, refl, sym, ◌∙◌, arith, false, true, some, List, [], ◌∷◌}
use cpy_q.Prelude.Raises.{returns}
use cpy_q.Prelude.Dict.{lookup, insert, erase}
use cpy_q.Ratelimit.{recent, check_ratelimit}
use cpy_q.Handshake.{bind, complete, fail, ensure_mutable}
use cpy_q.Auth.{discard}
use cpy_q.Messages.{
  server_role, autopilot_type, token_expired, duplicate_event_id, autopilot_handshake, task_done,
  normal_status, Event, is_fatal, ws_event, ws_ack, MessageType, Message, Frame, text_frame,
  parse_body, parse_received_message,
}
use cpy_q.Proxy.{
  Timer, ended, Proxy, new_proxy, cancelling, not_closing, shut_down, start, signal_close,
  is_handshake, valid_context, receive_event, accept_event, submit_ack, receive_ack, acknowledged,
  finish_handshake, receive_message, read_frame, reader, send, send_event, event_sent, start_timer,
  send_ack, ack_sent, close, transport_closed,
}
use cpy_q.Proxy.Steps.{
  Step, starts, sends, event_goes, reads, ack_begins, ack_goes, close_task, close_goes, closes,
  event_goes_on, ack_starts, ack_goes_on, wait_for_close, close_goes_on, step, run,
}
use cpy_q.Proxy.Acks.{Owes}
use cpy_q.Proxy.AckRuns.{run-Owes}
use cpy_q.Proxy.Quiet.{IsOver}
use cpy_q.Proxy.Progress.{run-shut_down}
use cpy_q.Proxy.Shutdown.{ClosesFutures, Keeps, run-Keeps, run-ClosesFutures}

abbrev handshake : Event
handshake = record { id = 1; status = normal_status; payload = autopilot_handshake 5 }

abbrev done : Event
done = record { id = 2; status = normal_status; payload = task_done }

abbrev frame : Message → Frame
frame message = text_frame (
    returns (record {
      sent_at = some (some 3);
      type = some (some MessageType.event_type);
      decode = λ type. returns message;
    }))

abbrev steps : List Step
steps =
    starts
    ∷ sends handshake
    ∷ event_goes 1
    ∷ reads 10 (frame (ws_ack 1))
    ∷ reads 11 (frame (ws_event done))
    ∷ ack_begins 2
    ∷ ack_goes 2
    ∷ reads 12 (frame (ws_event done))
    ∷ reads 13 (frame (ws_event done))
    ∷ close_task
    ∷ close_goes
    ∷ []

abbrev fresh : Proxy
fresh = new_proxy server_role autopilot_type true 10 60

run-steps :
    ((run steps fresh).queue ≡ done ∷ done ∷ [])
    × ((run steps fresh).outbox ≡ ws_event handshake ∷ ws_ack 2 ∷ [])
    × ((run steps fresh).close_future ≡ some duplicate_event_id)
    × ((run steps fresh).closing ≡ cancelling)
unfolding run step start send_event send event_sent event_goes_on start_timer bind ensure_mutable
    complete fail reader read_frame receive_message receive_event receive_ack acknowledged
    finish_handshake accept_event submit_ack is_handshake valid_context is_fatal parse_body
    parse_received_message signal_close ack_starts ack_goes_on send_ack ack_sent wait_for_close
    close close_goes_on transport_closed lookup insert erase recent check_ratelimit discard
run-steps = (refl, refl, refl, refl)

abbrev later : List Step
later = closes token_expired ∷ sends done ∷ []

run-Keeps_example : Keeps (run steps fresh) (run later (run steps fresh))
run-Keeps_example = run-Keeps later (run steps fresh)

run-ClosesFutures_example : ClosesFutures (run steps fresh)
run-ClosesFutures_example = run-ClosesFutures steps server_role autopilot_type true 10 60

run-Owes_example : Owes (run steps fresh)
run-Owes_example = run-Owes steps server_role autopilot_type true 10 60

steps-IsOver : IsOver (run steps fresh)
unfolding run step start send_event send event_sent event_goes_on start_timer bind ensure_mutable
    complete fail reader read_frame receive_message receive_event receive_ack acknowledged
    finish_handshake accept_event submit_ack is_handshake valid_context is_fatal parse_body
    parse_received_message signal_close ack_starts ack_goes_on send_ack ack_sent wait_for_close
    close close_goes_on transport_closed lookup insert erase recent check_ratelimit discard
steps-IsOver = (refl, refl, refl)

-- Something is sent while `close` goes on.
run-shut_down_example :
    let q = run (close_goes ∷ sends done ∷ close_goes ∷ close_goes ∷ []) (run steps fresh) in
    (q.closing ≡ shut_down)
    × (q.queue_open ≡ false)
    × (q.submitted ≡ [])
    × (q.sending_acks ≡ [])
    × ((id : ℕ) (timer : Timer) → lookup id q.sent_unacked ≡ some timer → timer ≡ ended)
run-shut_down_example =
    run-shut_down steps (close_goes ∷ sends done ∷ close_goes ∷ close_goes ∷ []) server_role
      autopilot_type true 10 60 steps-IsOver
      (λ e. let apart : cancelling ≡ not_closing = sym run-steps.3 ∙ e in cc) (omega arith)
