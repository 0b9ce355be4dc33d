-- ===== src/Proxy/Quiet.antt =====
-- What no stretch of a proxy's tasks (Common/WebSocket/response.py) undoes.
use cpy_q.Prelude.{ℕ, ◌≡◌, refl, sym, ap, ◌∙◌, ◌≢◌, Bool, true, false, Option, some, arith}
use cpy_q.Prelude.Raises.{Raises, returns, raises}
use cpy_q.Ratelimit.{check_ratelimit}
use cpy_q.Handshake.{pending, bind, complete, ensure_mutable}
use cpy_q.Messages.{CloseCode, Event, Message, ws_event, ws_ack, Frame, parse_received_message}
use cpy_q.Proxy.{
  Proxy, Failure, start, signal_close, failure_code, wrap_coro, receive_event, receive_ack, enqueue,
  receive_message, read_frame, reader_after, reader, reader_end, send_event, event_sent, send_ack,
  ack_sent, timer_begins, timer_fires,
}

-- The proxy is closed, and its reader has ended.
abbrev pub IsOver : Proxy → Type 0
IsOver p = (p.started ≡ true) × (p.closed ≡ true) × (p.reading ≡ false)

-- A close code that is set stays; a closed proxy stays closed and hands nothing more to the transport;
-- a settled handshake stays as it is; `close` has come no further; and a reader that has ended of a
-- closed proxy does not begin again.
abbrev pub Quiet : Proxy → Proxy → Type 0
Quiet p q =
    ((c : CloseCode) → p.close_future ≡ some c → q.close_future ≡ some c)
    × (p.closed ≡ true → q.closed ≡ true)
    × (p.closed ≡ true → q.outbox ≡ p.outbox)
    × (p.handshake_ctx.future ≢ pending → q.handshake_ctx ≡ p.handshake_ctx)
    × (q.closing ≡ p.closing)
    × (IsOver p → IsOver q)

pub Quiet-refl : (p : Proxy) → Quiet p p
Quiet-refl p = ((λ c h. h), (λ h. h), (λ h. refl), (λ h. refl), refl, (λ h. h))

Quiet-trans : (p q r : Proxy) → Quiet p q → Quiet q r → Quiet p r
Quiet-trans p q r f g = (
  (λ c h. g.0 c (f.0 c h)),
  (λ h. g.1 (f.1 h)),
  (λ h. g.2 (f.1 h) ∙ f.2 h),
  (λ h. g.3 (λ e. h (sym (ap (λ x. x.future) (f.3 h)) ∙ e)) ∙ f.3 h),
  g.4 ∙ f.4,
  (λ h. g.5 (f.5 h)),
)

signal_close-Quiet : (code : CloseCode) (p : Proxy) → Quiet p (signal_close code p)
unfolding signal_close
signal_close-Quiet code p = ground arith

receive_event-Quiet : (event : Event) (p : Proxy) → Quiet p (receive_event event p).1
unfolding receive_event bind ensure_mutable
receive_event-Quiet event p = ground arith

receive_ack-Quiet : (id : ℕ) (p : Proxy) → Quiet p (receive_ack id p).1
unfolding receive_ack complete ensure_mutable
receive_ack-Quiet id p = ground arith

enqueue-Quiet : (event : Event) (r : Raises Failure Bool × Proxy) → Quiet r.1 (enqueue event r).1
enqueue-Quiet event (returns true, p) = ground arith
enqueue-Quiet event (returns false, p) = ground arith
enqueue-Quiet event (raises failure, p) = ground arith

receive_message-Quiet : (r : Raises CloseCode Message) (p : Proxy) → Quiet p (receive_message r p).1
unfolding receive_message
receive_message-Quiet (raises code) p = Quiet-refl p
receive_message-Quiet (returns (ws_event event)) p =
    Quiet-trans p (receive_event event p).1 (enqueue event (receive_event event p)).1
      (receive_event-Quiet event p) (enqueue-Quiet event (receive_event event p))
receive_message-Quiet (returns (ws_ack id)) p = receive_ack-Quiet id p

read_frame-Quiet : (now : ℕ) (frame : Frame) (p : Proxy) → Quiet p (read_frame now frame p).1
unfolding read_frame
read_frame-Quiet now frame p = ground (
  arith,
  receive_message-Quiet (parse_received_message frame) p,
  receive_message-Quiet (parse_received_message frame)
      (record p { hits = (check_ratelimit now p.hits p.limit p.interval).1 }),
)

wrap_coro-Quiet : {A : Type 0} (r : Raises Failure A × Proxy) → Quiet r.1 (wrap_coro r)
wrap_coro-Quiet (returns a, p) = Quiet-refl p
wrap_coro-Quiet (raises failure, p) = signal_close-Quiet (failure_code failure) p

-- A stretch of a wrapped coroutine that is quiet is quiet with the wrapper.
pub wrapped-Quiet :
    {A : Type 0} (p : Proxy) (r : Raises Failure A × Proxy) → Quiet p r.1 → Quiet p (wrap_coro r)
wrapped-Quiet p r q = Quiet-trans p r.1 (wrap_coro r) q (wrap_coro-Quiet r)

reader_after-Quiet : (r : Raises Failure Unit × Proxy) → Quiet r.1 (reader_after r)
reader_after-Quiet (returns a, p) = Quiet-refl p
reader_after-Quiet (raises failure, p) =
    let f = signal_close-Quiet (failure_code failure) p in
    (f.0, f.1, f.2, f.3, f.4, (λ h. ((f.5 h).0, (f.5 h).1, refl)))

pub reader-Quiet : (now : ℕ) (frame : Frame) (p : Proxy) → Quiet p (reader now frame p)
unfolding reader
reader-Quiet now frame p =
    let done = read_frame now frame p in
    let turn =
      Quiet-trans p done.1 (reader_after done) (read_frame-Quiet now frame p)
        (reader_after-Quiet done) in
    ground (arith, Quiet-refl p, turn)

pub reader_end-Quiet :
    (member : ℕ → Option CloseCode) (raw : Option ℕ) (p : Proxy) → Quiet p (reader_end member raw p)
unfolding reader_end signal_close
reader_end-Quiet member raw p = ground arith

pub start-Quiet : (p : Proxy) → Quiet p (start p).1
unfolding start
start-Quiet p = ground arith

pub send_event-Quiet : (event : Event) (p : Proxy) → Quiet p (send_event event p).1
unfolding send_event
send_event-Quiet event p = ground arith

pub event_sent-Quiet : (event : Event) (p : Proxy) → Quiet p (event_sent event p).1
unfolding event_sent bind ensure_mutable
event_sent-Quiet event p = ground arith

pub send_ack-Quiet : (id : ℕ) (handshake : Bool) (p : Proxy) → Quiet p (send_ack id handshake p).1
unfolding send_ack
send_ack-Quiet id handshake p = ground arith

pub ack_sent-Quiet : (id : ℕ) (handshake : Bool) (p : Proxy) → Quiet p (ack_sent id handshake p).1
unfolding ack_sent complete ensure_mutable
ack_sent-Quiet id handshake p = ground arith

pub timer_begins-Quiet : (id : ℕ) (p : Proxy) → Quiet p (timer_begins id p).1
unfolding timer_begins
timer_begins-Quiet id p = ground arith

pub timer_fires-Quiet : (id : ℕ) (p : Proxy) → Quiet p (timer_fires id p).1
unfolding timer_fires
timer_fires-Quiet id p = ground arith
