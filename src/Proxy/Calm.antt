-- ===== src/Proxy/Calm.antt =====
-- What the tasks of a closed proxy (Common/WebSocket/response.py) leave as it is, once they are cancelled.
use cpy_q.Prelude.{
  ℕ, ◌≡◌, refl, sym, ap, ◌∙◌, inl, inr, Bool, true, false, some, none, [], Option, if◌then◌else◌,
  arith, Option-cases,
}
use cpy_q.Prelude.Dict.{lookup, erase, lookup-erase}
use cpy_q.Prelude.Raises.{Raises, returns, raises}
use cpy_q.Ratelimit.{Outcome, passed, exceeded, check_ratelimit}
use cpy_q.Handshake.{bind, complete, ensure_mutable}
use cpy_q.Messages.{CloseCode, Event, Message, ws_event, ws_ack, Frame, parse_received_message}
use cpy_q.Proxy.{
  Timer, ended, Proxy, Failure, ratelimit_exception, receive, start, signal_close, failure_code,
  wrap_coro, receive_event, acknowledged, receive_ack, enqueue, receive_message, read_frame,
  reader_after, reader, reader_end, send_event, event_sent,
}
use cpy_q.Proxy.Steps.{
  event_goes_on, ack_starts, ack_goes_on, ack_fails, timer_goes_on, timer_wakes, take,
}

-- Each timer has ended.
abbrev pub TimersEnded : Proxy → Type 0
TimersEnded p = (id : ℕ) (timer : Timer) → lookup id p.sent_unacked ≡ some timer → timer ≡ ended

-- No acknowledgement is on its way, and each timer that is still there has ended.
abbrev pub IsCancelled : Proxy → Type 0
IsCancelled p = (p.submitted ≡ []) × (p.sending_acks ≡ []) × TimersEnded p

-- The tasks and the queue are the same.
abbrev Same : Proxy → Proxy → Type 0
Same p q =
    (q.closed ≡ true)
    × (q.submitted ≡ p.submitted)
    × (q.sending_acks ≡ p.sending_acks)
    × (q.sent_unacked ≡ p.sent_unacked)
    × (q.queue_open ≡ p.queue_open)

-- A closed proxy without tasks stays so, and its queue is as it was.
abbrev pub Calm : Proxy → Proxy → Type 0
Calm p q =
    p.closed ≡ true
    → (q.closed ≡ true) × (IsCancelled p → IsCancelled q) × (q.queue_open ≡ p.queue_open)

Calm-refl : (p : Proxy) → Calm p p
Calm-refl p h = (h, (λ v. v), refl)

Calm-trans : (p q r : Proxy) → Calm p q → Calm q r → Calm p r
Calm-trans p q r f g h = let a = f h in let b = g a.0 in (b.0, (λ v. b.1 (a.1 v)), b.2 ∙ a.2)

Same-Calm : (p q : Proxy) → (p.closed ≡ true → Same p q) → Calm p q
Same-Calm p q f h =
    let (closed, submitted, acks, timers, queue) = f h in
    (
      closed,
      (λ v. (
        submitted ∙ v.0,
        acks ∙ v.1,
        λ id timer e. v.2 id timer (ap (lookup id) (sym timers) ∙ e),
      )),
      queue,
    )

signal_close-Calm : (code : CloseCode) (p : Proxy) → Calm p (signal_close code p)
unfolding signal_close
signal_close-Calm code p = Same-Calm p (signal_close code p) (λ h. ground arith)

wrap_coro-Calm : {A : Type 0} (r : Raises Failure A × Proxy) → Calm r.1 (wrap_coro r)
wrap_coro-Calm (returns a, p) = Calm-refl p
wrap_coro-Calm (raises failure, p) = signal_close-Calm (failure_code failure) p

receive_event-Calm : (event : Event) (p : Proxy) → Calm p (receive_event event p).1
unfolding receive_event bind ensure_mutable
receive_event-Calm event p = Same-Calm p (receive_event event p).1 (λ h. ground arith)

enqueue-Calm : (event : Event) (r : Raises Failure Bool × Proxy) → Calm r.1 (enqueue event r).1
enqueue-Calm event (returns true, p) =
    Same-Calm p (enqueue event (returns true, p)).1 (λ h. ground arith)
enqueue-Calm event (returns false, p) = Calm-refl p
enqueue-Calm event (raises failure, p) = Calm-refl p

acknowledged-Calm : (id : ℕ) (p : Proxy) → Calm p (acknowledged id p).1
unfolding acknowledged complete ensure_mutable
acknowledged-Calm id p = Same-Calm p (acknowledged id p).1 (λ h. ground arith)

erase-Calm : (id : ℕ) (p : Proxy) → Calm p (record p { sent_unacked = erase id p.sent_unacked })
erase-Calm id p h = (
  h,
  (λ v. (v.0, v.1, λ k timer e. ground (arith, e, v.2 k timer, lookup-erase k id p.sent_unacked))),
  refl,
)

receive_ack-Calm : (id : ℕ) (p : Proxy) → Calm p (receive_ack id p).1
unfolding receive_ack
receive_ack-Calm id p = elim (Option-cases (lookup id p.sent_unacked)) [
  | inl missing ↦ rw (missing, receive_ack) (Calm-refl p)
  | inr (timer, e) ↦
      let erased = record p { sent_unacked = erase id p.sent_unacked } in
      rw (e, receive_ack)
        (Calm-trans p erased (acknowledged id erased).1 (erase-Calm id p)
          (acknowledged-Calm id erased))
]

receive_message-Calm : (r : Raises CloseCode Message) (p : Proxy) → Calm p (receive_message r p).1
unfolding receive_message
receive_message-Calm (raises code) p = Calm-refl p
receive_message-Calm (returns (ws_event event)) p =
    Calm-trans p (receive_event event p).1 (enqueue event (receive_event event p)).1
      (receive_event-Calm event p) (enqueue-Calm event (receive_event event p))
receive_message-Calm (returns (ws_ack id)) p = receive_ack-Calm id p

read_frame-Calm : (now : ℕ) (frame : Frame) (p : Proxy) → Calm p (read_frame now frame p).1
unfolding read_frame
read_frame-Calm now frame p = go p.ratelimited (check_ratelimit now p.hits p.limit p.interval).0
  where
    logged : Proxy
    logged = record p { hits = (check_ratelimit now p.hits p.limit p.interval).1 }

    go :
        (limited : Bool) (outcome : Outcome)
        → Calm p
            (if limited
              then elim outcome [
                | exceeded ↦ (raises ratelimit_exception, logged)
                | passed ↦ receive frame logged
              ]
              else receive frame p).1
    go false outcome = receive_message-Calm (parse_received_message frame) p
    go true exceeded = Calm-refl p
    go true passed = receive_message-Calm (parse_received_message frame) logged

reader_after-Calm : (r : Raises Failure Unit × Proxy) → Calm r.1 (reader_after r)
reader_after-Calm (returns a, p) = Calm-refl p
reader_after-Calm (raises failure, p) = signal_close-Calm (failure_code failure) p

Calm-if : (due : Bool) (p q : Proxy) → Calm p q → Calm p (if due then q else p)
Calm-if true p q f = f
Calm-if false p q f = Calm-refl p

pub reader-Calm : (now : ℕ) (frame : Frame) (p : Proxy) → Calm p (reader now frame p)
unfolding reader
reader-Calm now frame p =
    let done = read_frame now frame p in
    Calm-if p.reading p (reader_after done) (
      Calm-trans p done.1 (reader_after done) (read_frame-Calm now frame p)
        (reader_after-Calm done))

pub reader_end-Calm :
    (member : ℕ → Option CloseCode) (raw : Option ℕ) (p : Proxy) → Calm p (reader_end member raw p)
unfolding reader_end signal_close
reader_end-Calm member raw p = Same-Calm p (reader_end member raw p) (λ h. ground arith)

pub start-Calm : (p : Proxy) → Calm p (start p).1
unfolding start
start-Calm p = Same-Calm p (start p).1 (λ h. ground arith)

pub send_event-Calm : (event : Event) (p : Proxy) → Calm p (send_event event p).1
unfolding send_event
send_event-Calm event p = Same-Calm p (send_event event p).1 (λ h. ground (arith, h))

pub event_goes_on-Calm : (id : ℕ) (p : Proxy) → Calm p (event_goes_on id p)
unfolding event_goes_on event_sent bind ensure_mutable
event_goes_on-Calm id p = Same-Calm p (event_goes_on id p) (λ h. ground (arith, h))

pub take-Calm : (p : Proxy) → Calm p (take p)
unfolding take
take-Calm p = Same-Calm p (take p) (λ h. ground arith)

-- A task that is not there does not go on.
pub ack_starts-none : (id : ℕ) (p : Proxy) → p.submitted ≡ [] → ack_starts id p ≡ p
unfolding ack_starts lookup
ack_starts-none id p h =
    let none_there : lookup id p.submitted ≡ none = ap (lookup id) h in rw (ack_starts, none_there)

pub ack_goes_on-none : (id : ℕ) (p : Proxy) → p.sending_acks ≡ [] → ack_goes_on id p ≡ p
unfolding ack_goes_on lookup
ack_goes_on-none id p h =
    let none_there : lookup id p.sending_acks ≡ none = ap (lookup id) h in
    rw (ack_goes_on, none_there)

pub ack_fails-none : (id : ℕ) (p : Proxy) → p.sending_acks ≡ [] → ack_fails id p ≡ p
unfolding ack_fails lookup
ack_fails-none id p h =
    let none_there : lookup id p.sending_acks ≡ none = ap (lookup id) h in
    rw (ack_fails, none_there)

pub timer_goes_on-none : (id : ℕ) (p : Proxy) → TimersEnded p → timer_goes_on id p ≡ p
unfolding timer_goes_on
timer_goes_on-none id p v = elim (Option-cases (lookup id p.sent_unacked)) [
  | inl e ↦ rw (timer_goes_on, e)
  | inr (timer, e) ↦ rw (timer_goes_on, e, v id timer e)
]

pub timer_wakes-none : (id : ℕ) (p : Proxy) → TimersEnded p → timer_wakes id p ≡ p
unfolding timer_wakes
timer_wakes-none id p v = elim (Option-cases (lookup id p.sent_unacked)) [
  | inl e ↦ rw (timer_wakes, e)
  | inr (timer, e) ↦ rw (timer_wakes, e, v id timer e)
]
