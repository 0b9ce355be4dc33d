-- ===== src/Proxy/Steps.antt =====
-- The tasks of a proxy (Common/WebSocket/response.py) and its owner, in any order: each step is one
-- stretch of one of them, and a stretch that is not due does nothing.
use cpy_q.Prelude.{ℕ, Option, none, some, List, [], ◌∷◌}
use cpy_q.Prelude.Dict.{lookup, erase}
use cpy_q.Messages.{CloseCode, internal_error, Event, Frame}
use cpy_q.Proxy.{
  created, sleeping, closing_transport, cancelling, waiting_for_tasks, Proxy, start, wrap_coro,
  signal_close, reader, reader_end, send_event, event_sent, send_ack, ack_sent, timer_begins,
  timer_fires, close, transport_closed, cancel_tasks, tasks_done,
}

pub data Step : Type 0 where
  starts : Step
  reads : ℕ → Frame → Step
  transport_ends : (ℕ → Option CloseCode) → Option ℕ → Step
  sends : Event → Step
  event_goes ack_begins ack_goes ack_lost timer_starts timer_expires : ℕ → Step
  closes : CloseCode → Step
  close_task close_goes : Step
  takes : Step

unfoldable pub event_goes_on : ℕ → Proxy → Proxy
event_goes_on id proxy = elim (lookup id proxy.sending_events) [
  | none ↦ proxy
  | some event ↦
      (event_sent event (record proxy { sending_events = erase id proxy.sending_events })).1
]

unfoldable pub ack_starts : ℕ → Proxy → Proxy
ack_starts id proxy = elim (lookup id proxy.submitted) [
  | none ↦ proxy
  | some handshake ↦
      wrap_coro (send_ack id handshake (record proxy { submitted = erase id proxy.submitted }))
]

unfoldable pub ack_goes_on : ℕ → Proxy → Proxy
ack_goes_on id proxy = elim (lookup id proxy.sending_acks) [
  | none ↦ proxy
  | some handshake ↦
      wrap_coro
        (ack_sent id handshake (record proxy { sending_acks = erase id proxy.sending_acks }))
]

-- The transport raises in `send_json`.
unfoldable pub ack_fails : ℕ → Proxy → Proxy
ack_fails id proxy = elim (lookup id proxy.sending_acks) [
  | none ↦ proxy
  | some handshake ↦
      signal_close internal_error (record proxy { sending_acks = erase id proxy.sending_acks })
]

unfoldable pub timer_goes_on : ℕ → Proxy → Proxy
timer_goes_on id proxy = elim (lookup id proxy.sent_unacked) [
  | some created ↦ wrap_coro (timer_begins id proxy)
  | _ ↦ proxy
]

unfoldable pub timer_wakes : ℕ → Proxy → Proxy
timer_wakes id proxy = elim (lookup id proxy.sent_unacked) [
  | some sleeping ↦ wrap_coro (timer_fires id proxy)
  | _ ↦ proxy
]

-- `__wait_for_close__`, once its future is set
unfoldable pub wait_for_close : Proxy → Proxy
wait_for_close proxy = elim proxy.close_future [ none ↦ proxy | some code ↦ close code proxy ]

-- The next stretch of `close`
unfoldable pub close_goes_on : Proxy → Proxy
close_goes_on proxy = elim proxy.closing [
  | closing_transport code ↦ transport_closed code proxy
  | cancelling ↦ cancel_tasks proxy
  | waiting_for_tasks ↦ tasks_done proxy
  | _ ↦ proxy
]

-- `__anext__`, where an event waits
unfoldable pub take : Proxy → Proxy
take proxy = elim proxy.queue [ [] ↦ proxy | event ∷ rest ↦ record proxy { queue = rest } ]

unfoldable pub step : Step → Proxy → Proxy
step starts proxy = (start proxy).1
step (reads now frame) proxy = reader now frame proxy
step (transport_ends member raw_code) proxy = reader_end member raw_code proxy
step (sends event) proxy = (send_event event proxy).1
step (event_goes id) proxy = event_goes_on id proxy
step (ack_begins id) proxy = ack_starts id proxy
step (ack_goes id) proxy = ack_goes_on id proxy
step (ack_lost id) proxy = ack_fails id proxy
step (timer_starts id) proxy = timer_goes_on id proxy
step (timer_expires id) proxy = timer_wakes id proxy
step (closes code) proxy = close code proxy
step close_task proxy = wait_for_close proxy
step close_goes proxy = close_goes_on proxy
step takes proxy = take proxy

unfoldable pub run : List Step → Proxy → Proxy
run [] proxy = proxy
run (s ∷ steps) proxy = run steps (step s proxy)
