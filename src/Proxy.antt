-- ===== src/Proxy.antt =====
-- Common/WebSocket/response.py: the class WSProxy. Its tasks run in turn, and each stretch of code
-- between two `await`s is a function here: it takes the proxy to the proxy, beside what it returns or
-- raises. `outbox` is what was handed to the transport.
pub mod Steps
pub mod Quiet
pub mod Shutdown
pub mod Calm
pub mod WoundDown
pub mod Progress
pub mod Acks
pub mod AckRuns
mod Tests
use cpy_q.Prelude.{
  ℕ, ◌+◌, Bool, true, false, not, ◌&&◌, ◌||◌, Option, none, some, is_some, List, [], ◌∷◌, ◌++◌, map,
  elem, ◌==◌, if◌then◌else◌,
}
use cpy_q.Prelude.Dict.{Dict, lookup, insert, erase}
use cpy_q.Prelude.Raises.{Raises, returns, raises}
use cpy_q.Ratelimit.{Outcome, passed, exceeded, check_ratelimit}
use cpy_q.Handshake.{HandshakeContext, Phase, is_complete, new_context, bind, complete, fail, after}
use cpy_q.Auth.{discard}
use cpy_q.Messages.{
  PeerRole, server_role, client_role, PeerType, user_type, autopilot_type, CloseCode, standard,
  policy_violation, abnormal_closure, duplicate_event_id, ack_timeout, unknown_event, fatal_event,
  bad_payload_context, internal_error, Payload, empty_payload, user_handshake, autopilot_handshake,
  task_assigned, task_done, Event, is_fatal, Message, ws_event, ws_ack, Frame,
  parse_received_message,
}

-- The task of `__ack_timeout__`: created, asleep, or done (also where it was cancelled).
pub data Timer : Type 0 where
  created sleeping ended : Timer

-- How far `close` has come, at its `await`s.
pub data Closing : Type 0 where
  not_closing : Closing
  closing_transport : CloseCode → Closing
  cancelling waiting_for_tasks shut_down : Closing

-- `limit` and `interval` are read where `ratelimited`. `submitted` has the ids of the events whose
-- `__send_ack__` task has not begun, and whether the event is the handshake, and `sending_acks`
-- those whose task awaits the transport; `sending_events` has the events whose `__send_event__`
-- does. `reading` is whether the reader task goes on.
pub record Proxy : Type 0 where
  pub role : PeerRole
  pub peer_type : PeerType
  pub ratelimited : Bool
  pub limit : ℕ
  pub interval : ℕ
  pub hits : List ℕ
  pub sent_unacked : Dict Timer
  pub received_unacked : List ℕ
  pub submitted : Dict Bool
  pub sending_acks : Dict Bool
  pub sending_events : Dict Event
  pub fatal : Option Event
  pub handshake_ctx : HandshakeContext Event CloseCode
  pub queue : List Event
  pub queue_open : Bool
  pub close_future : Option CloseCode
  pub closing : Closing
  pub reading : Bool
  pub started : Bool
  pub closed : Bool
  pub outbox : List Message

-- What a coroutine of the proxy may raise.
pub data Failure : Type 0 where
  ratelimit_exception other_exception : Failure
  ws_exception : CloseCode → Failure

-- `__init__` with `start=False`; limit and interval are given where the proxy is `ratelimited`.
abbrev pub new_proxy : PeerRole → PeerType → Bool → ℕ → ℕ → Proxy
new_proxy role peer_type ratelimited limit interval = record {
  role = role;
  peer_type = peer_type;
  ratelimited = ratelimited;
  limit = limit;
  interval = interval;
  hits = [];
  sent_unacked = [];
  received_unacked = [];
  submitted = [];
  sending_acks = [];
  sending_events = [];
  fatal = none;
  handshake_ctx = new_context;
  queue = [];
  queue_open = true;
  close_future = none;
  closing = not_closing;
  reading = false;
  started = false;
  closed = false;
  outbox = [];
}

-- The method `start`: it makes the context, the queue and the future, and the tasks.
unfoldable pub start : Proxy → Bool × Proxy
start proxy =
    if proxy.started
    then (false, proxy)
    else (true, record proxy { started = true; reading = true })

abbrev pub is_server : Proxy → Bool
is_server proxy = elim proxy.role [ server_role ↦ true | client_role ↦ false ]

abbrev pub running : Proxy → Bool
running proxy = proxy.started && not proxy.closed

-- `type(payload) is self.handshake_cls`
unfoldable pub is_handshake : PeerType → Payload → Bool
is_handshake user_type (user_handshake t) = true
is_handshake autopilot_type (autopilot_handshake t) = true
is_handshake _ _ = false

abbrev pub handshake_set : Proxy → Bool
handshake_set proxy = proxy.started && is_some proxy.handshake_ctx.event

abbrev pub context_done : HandshakeContext Event CloseCode → Bool
context_done ctx = elim ctx.phase [ is_complete ↦ true | _ ↦ false ]

abbrev pub handshake_done : Proxy → Bool
handshake_done proxy = proxy.started && context_done proxy.handshake_ctx

-- The methods `valid_context` of the payload classes
unfoldable pub valid_context : Payload → Proxy → Bool
unfolding is_handshake
valid_context empty_payload receiver = handshake_done receiver
valid_context (user_handshake t) receiver =
    not (is_server receiver)
    && (not (handshake_set receiver) && is_handshake receiver.peer_type (user_handshake t))
valid_context (autopilot_handshake t) receiver =
    not (is_server receiver)
    && (not (handshake_set receiver) && is_handshake receiver.peer_type (autopilot_handshake t))
valid_context (task_assigned task) receiver =
    not (is_server receiver)
    && (handshake_done receiver
        && elim receiver.peer_type [ autopilot_type ↦ true | user_type ↦ false ])
valid_context task_done receiver =
    is_server receiver
    && (handshake_done receiver
        && elim receiver.peer_type [ autopilot_type ↦ true | user_type ↦ false ])

-- `__signal_close__`
unfoldable pub signal_close : CloseCode → Proxy → Proxy
signal_close code proxy = elim proxy.close_future [
  | none ↦ record proxy { close_future = some code }
  | some first ↦ proxy
]

abbrev pub failure_code : Failure → CloseCode
failure_code ratelimit_exception = policy_violation
failure_code (ws_exception code) = code
failure_code other_exception = internal_error

-- `__wrap_coro__`, on how the coroutine ends
abbrev pub wrap_coro : {A : Type 0} → Raises Failure A × Proxy → Proxy
wrap_coro (returns a, proxy) = proxy
wrap_coro (raises failure, proxy) = signal_close (failure_code failure) proxy

-- `__get_close_code__`; `member` is what `WSCloseCode(raw_code)` and `CustomWSCloseCode(raw_code)` give.
unfoldable pub get_close_code : (ℕ → Option CloseCode) → Option ℕ → CloseCode
get_close_code member none = abnormal_closure
get_close_code member (some raw_code) = elim (member raw_code) [
  | none ↦ abnormal_closure
  | some code ↦ code
]

-- The end of `__receive_event__`: `submit` of the task that sends the acknowledgement
unfoldable pub submit_ack : ℕ → Bool → Proxy → Raises Failure Bool × Proxy
submit_ack id handshake proxy =
    if running proxy
    then (returns (not handshake), record proxy { submitted = insert id handshake proxy.submitted })
    else (raises other_exception, proxy)

-- `__receive_event__`, from the line that adds the id
unfoldable pub accept_event : Event → Proxy → Raises Failure Bool × Proxy
unfolding submit_ack
accept_event event proxy =
    let known = record proxy { received_unacked = event.id ∷ proxy.received_unacked } in
    if is_handshake proxy.peer_type event.payload
    then elim (bind event proxy.handshake_ctx) [
      | raises error ↦ (raises other_exception, known)
      | returns ctx ↦ submit_ack event.id true (record known { handshake_ctx = ctx })
    ]
    else submit_ack event.id false known

unfoldable pub receive_event : Event → Proxy → Raises Failure Bool × Proxy
unfolding accept_event
receive_event event proxy =
    if elem event.id proxy.received_unacked
    then (raises (ws_exception duplicate_event_id), proxy)
    else if is_fatal event
    then (raises (ws_exception fatal_event), record proxy { fatal = some event })
    else if not (valid_context event.payload proxy)
    then (raises (ws_exception bad_payload_context), proxy)
    else accept_event event proxy

-- `self.__handshake_ctx.done()`
unfoldable pub finish_handshake : Proxy → Raises Failure Unit × Proxy
finish_handshake proxy = elim (complete proxy.handshake_ctx) [
  | raises error ↦ (raises other_exception, proxy)
  | returns ctx ↦ (returns tt, record proxy { handshake_ctx = ctx })
]

-- The end of `__receive_ack__`; a context without an event has no `id`.
unfoldable pub acknowledged : ℕ → Proxy → Raises Failure Unit × Proxy
unfolding finish_handshake
acknowledged id proxy = elim proxy.handshake_ctx.event [
  | none ↦ if is_server proxy then (raises other_exception, proxy) else (returns tt, proxy)
  | some event ↦
      if is_server proxy && ((id == event.id) && not (handshake_done proxy))
      then finish_handshake proxy
      else (returns tt, proxy)
]

unfoldable pub receive_ack : ℕ → Proxy → Raises Failure Unit × Proxy
unfolding acknowledged
receive_ack id proxy = elim (lookup id proxy.sent_unacked) [
  | none ↦ (raises (ws_exception unknown_event), proxy)
  | some timer ↦ acknowledged id (record proxy { sent_unacked = erase id proxy.sent_unacked })
]

-- `if result: await self.__queue.put(custom_message)`
abbrev pub enqueue : Event → Raises Failure Bool × Proxy → Raises Failure Unit × Proxy
enqueue event (raises failure, proxy) = (raises failure, proxy)
enqueue event (returns true, proxy) =
    (returns tt, record proxy { queue = proxy.queue ++ event ∷ [] })
enqueue event (returns false, proxy) = (returns tt, proxy)

-- The body of the reader's loop after the rate limit
unfoldable pub receive_message : Raises CloseCode Message → Proxy → Raises Failure Unit × Proxy
unfolding receive_event receive_ack
receive_message (raises code) proxy = (raises (ws_exception code), proxy)
receive_message (returns (ws_event event)) proxy = enqueue event (receive_event event proxy)
receive_message (returns (ws_ack id)) proxy = receive_ack id proxy

abbrev pub receive : Frame → Proxy → Raises Failure Unit × Proxy
receive frame proxy = receive_message (parse_received_message frame) proxy

unfoldable pub read_frame : ℕ → Frame → Proxy → Raises Failure Unit × Proxy
unfolding receive_message
read_frame now frame proxy =
    let logged = record proxy {
      hits = (check_ratelimit now proxy.hits proxy.limit proxy.interval).1;
    } in
    if proxy.ratelimited
    then elim (check_ratelimit now proxy.hits proxy.limit proxy.interval).0 [
      | exceeded ↦ (raises ratelimit_exception, logged)
      | passed ↦ receive frame logged
    ]
    else receive frame proxy

-- The reader goes on unless its coroutine raised.
abbrev pub reader_after : Raises Failure Unit × Proxy → Proxy
reader_after (returns a, proxy) = proxy
reader_after (raises failure, proxy) = record (signal_close (failure_code failure) proxy) {
  reading = false;
}

-- `__reader__`: one turn of the loop, and what follows it
unfoldable pub reader : ℕ → Frame → Proxy → Proxy
unfolding read_frame
reader now frame proxy = if proxy.reading then reader_after (read_frame now frame proxy) else proxy

unfoldable pub reader_end : (ℕ → Option CloseCode) → Option ℕ → Proxy → Proxy
reader_end member raw_code proxy =
    if proxy.reading
    then record (signal_close (get_close_code member raw_code) proxy) { reading = false }
    else proxy

-- `__send__` up to its `await`
unfoldable pub send : Message → Proxy → Raises Failure Unit × Proxy
send message proxy =
    if running proxy
    then (returns tt, record proxy { outbox = proxy.outbox ++ message ∷ [] })
    else (raises other_exception, proxy)

-- `__send_event__` before and after the `await`; its exceptions go to the caller of `send_payload`.
unfoldable pub send_event : Event → Proxy → Raises Failure Unit × Proxy
unfolding send
send_event event proxy =
    let (result, other) = send (ws_event event) proxy in
    elim result [
      | raises failure ↦ (raises failure, other)
      | returns a ↦
          (returns a, record other { sending_events = insert event.id event other.sending_events })
    ]

unfoldable pub start_timer : ℕ → Proxy → Raises Failure Unit × Proxy
start_timer id proxy =
    if running proxy
    then (returns tt, record proxy { sent_unacked = insert id created proxy.sent_unacked })
    else (raises other_exception, proxy)

unfoldable pub event_sent : Event → Proxy → Raises Failure Unit × Proxy
unfolding start_timer
event_sent event proxy =
    if is_server proxy && (is_handshake proxy.peer_type event.payload && not (handshake_set proxy))
    then elim (bind event proxy.handshake_ctx) [
      | raises error ↦ (raises other_exception, proxy)
      | returns ctx ↦ start_timer event.id (record proxy { handshake_ctx = ctx })
    ]
    else start_timer event.id proxy

-- `__send_ack__` before and after the `await`, or where the transport raises
unfoldable pub send_ack : ℕ → Bool → Proxy → Raises Failure Unit × Proxy
unfolding send
send_ack id handshake proxy =
    let (result, other) = send (ws_ack id) proxy in
    elim result [
      | raises failure ↦ (raises failure, other)
      | returns a ↦
          (returns a, record other { sending_acks = insert id handshake other.sending_acks })
    ]

unfoldable pub ack_sent : ℕ → Bool → Proxy → Raises Failure Unit × Proxy
unfolding finish_handshake
ack_sent id handshake proxy =
    let sent = record proxy { received_unacked = discard id proxy.received_unacked } in
    if handshake then finish_handshake sent else (returns tt, sent)

-- `__ack_timeout__` before and after its `sleep`
unfoldable pub timer_begins : ℕ → Proxy → Raises Failure Unit × Proxy
timer_begins id proxy = elim proxy.handshake_ctx.event [
  | none ↦
      (raises other_exception, record proxy { sent_unacked = insert id ended proxy.sent_unacked })
  | some event ↦ (returns tt, record proxy { sent_unacked = insert id sleeping proxy.sent_unacked })
]

unfoldable pub timer_fires : ℕ → Proxy → Raises Failure Unit × Proxy
timer_fires id proxy = (
  raises (ws_exception ack_timeout),
  record proxy { sent_unacked = insert id ended proxy.sent_unacked },
)

-- `close`, in four stretches
unfoldable pub close : CloseCode → Proxy → Proxy
close code proxy =
    if running proxy
    then record proxy { closed = true; closing = closing_transport code }
    else proxy

unfoldable pub transport_closed : CloseCode → Proxy → Proxy
transport_closed code proxy =
    let signalled = signal_close code proxy in
    record signalled {
      handshake_ctx = after signalled.handshake_ctx (fail code signalled.handshake_ctx);
      closing = cancelling;
    }

unfoldable pub cancel_tasks : Proxy → Proxy
cancel_tasks proxy = record proxy {
  sent_unacked = map (λ entry. (entry.0, ended)) proxy.sent_unacked;
  submitted = [];
  sending_acks = [];
  closing = waiting_for_tasks;
}

unfoldable pub tasks_done : Proxy → Proxy
tasks_done proxy =
    if proxy.reading then proxy else record proxy { queue_open = false; closing = shut_down }
