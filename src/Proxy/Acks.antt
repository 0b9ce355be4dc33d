-- ===== src/Proxy/Acks.antt =====
-- The acknowledgements that a proxy owes (Common/WebSocket/response.py).
use cpy_q.Prelude.{
  ℕ, ◌≡◌, inl, inr, true, false, ◌||◌, ◌&&◌, none, List, [], ◌∷◌, elem, arith, Bool-cases, ◌==◌,
  if◌then◌else◌,
}
use cpy_q.Prelude.Dict.{contains, lookup-insert, lookup-erase}
use cpy_q.Prelude.Raises.{Raises, returns, raises}
use cpy_q.Ratelimit.{check_ratelimit}
use cpy_q.Handshake.{complete, ensure_mutable}
use cpy_q.Auth.{discard}
use cpy_q.Messages.{Event, CloseCode, Message, ws_event, ws_ack, Frame, parse_received_message}
use cpy_q.Proxy.{
  Proxy, signal_close, receive_event, accept_event, submit_ack, enqueue, receive_message,
  receive_ack, read_frame, reader_after, reader, send_ack, ack_sent,
}
use cpy_q.Proxy.Steps.{ack_starts, ack_goes_on, ack_fails}

-- While no close code is set, the ids of the events that were received and not acknowledged are
-- those for which a task is about to send the acknowledgement, or sends it; and there is one such task.
abbrev pub OwesAt : Proxy → ℕ → Type 0
OwesAt p id =
    p.close_future ≡ none
    → (elem id p.received_unacked ≡ (contains id p.submitted || contains id p.sending_acks))
      × ((contains id p.submitted && contains id p.sending_acks) ≡ false)

elem-discard :
    (id x : ℕ) (ids : List ℕ) → elem x (discard id ids) ≡ (if x == id then false else elem x ids)
unfolding discard
elem-discard id x [] = ground arith
elem-discard id x (y ∷ ys) = ground (arith, elem-discard id x ys)

accept_event-OwesAt :
    (event : Event) (p : Proxy) (x : ℕ)
    → elem event.id p.received_unacked ≡ false
    → OwesAt p x
    → OwesAt p event.id
    → OwesAt (reader_after (enqueue event (accept_event event p))) x
unfolding accept_event submit_ack signal_close
accept_event-OwesAt event p x new v w =
    ground
      (arith, lookup-insert x event.id true p.submitted, lookup-insert x event.id false p.submitted)

abbrev pub Owes : Proxy → Type 0
Owes p = (id : ℕ) → OwesAt p id

-- The lists are as before, and a close code that is set stays.
abbrev pub SameAcks : Proxy → Proxy → Type 0
SameAcks p q =
    (q.received_unacked ≡ p.received_unacked)
    × (q.submitted ≡ p.submitted)
    × (q.sending_acks ≡ p.sending_acks)
    × (q.close_future ≡ none → p.close_future ≡ none)

pub SameAcks-OwesAt : (p q : Proxy) (x : ℕ) → SameAcks p q → OwesAt p x → OwesAt q x
SameAcks-OwesAt p q x (a, b, c, d) v e = rw (a, b, c) (v (d e))

closed-OwesAt : (p : Proxy) (code : CloseCode) (x : ℕ) → OwesAt (signal_close code p) x
unfolding signal_close
closed-OwesAt p code x = ground arith

receive_event-OwesAt :
    (event : Event) (p : Proxy) (x : ℕ)
    → OwesAt p x
    → OwesAt p event.id
    → OwesAt (reader_after (enqueue event (receive_event event p))) x
unfolding receive_event signal_close
receive_event-OwesAt event p x v w = elim (Bool-cases (elem event.id p.received_unacked)) [
  | inl again ↦ ground (arith, again)
  | inr new ↦ ground (arith, new, accept_event-OwesAt event p x new v w)
]

receive_ack-OwesAt :
    (id : ℕ) (p : Proxy) (x : ℕ) → OwesAt p x → OwesAt (reader_after (receive_ack id p)) x
unfolding receive_ack signal_close complete ensure_mutable
receive_ack-OwesAt id p x v = ground arith

receive_message-OwesAt :
    (r : Raises CloseCode Message) (p : Proxy) (x : ℕ)
    → Owes p
    → OwesAt (reader_after (receive_message r p)) x
unfolding receive_message signal_close
receive_message-OwesAt (raises code) p x v = ground arith
receive_message-OwesAt (returns (ws_event event)) p x v =
    receive_event-OwesAt event p x (v x) (v event.id)
receive_message-OwesAt (returns (ws_ack id)) p x v = receive_ack-OwesAt id p x (v x)

read_frame-OwesAt :
    (now : ℕ) (frame : Frame) (p : Proxy) (x : ℕ)
    → Owes p
    → OwesAt (reader_after (read_frame now frame p)) x
unfolding read_frame signal_close
read_frame-OwesAt now frame p x v =
    let message = parse_received_message frame in
    let checked = check_ratelimit now p.hits p.limit p.interval in
    ground (
      arith,
      receive_message-OwesAt message p x v,
      receive_message-OwesAt message (record p { hits = checked.1 }) x v,
    )

pub reader-OwesAt :
    (now : ℕ) (frame : Frame) (p : Proxy) (x : ℕ) → Owes p → OwesAt (reader now frame p) x
unfolding reader
reader-OwesAt now frame p x v = ground (arith, read_frame-OwesAt now frame p x v, v x)

pub ack_starts-OwesAt : (id : ℕ) (p : Proxy) (x : ℕ) → Owes p → OwesAt (ack_starts id p) x
unfolding ack_starts send_ack signal_close
ack_starts-OwesAt id p x v = ground (
  arith,
  v x,
  v id,
  lookup-erase x id p.submitted,
  lookup-insert x id true p.sending_acks,
  lookup-insert x id false p.sending_acks,
)

pub ack_goes_on-OwesAt : (id : ℕ) (p : Proxy) (x : ℕ) → Owes p → OwesAt (ack_goes_on id p) x
unfolding ack_goes_on ack_sent complete ensure_mutable signal_close
ack_goes_on-OwesAt id p x v =
    ground
      (arith, v x, v id, lookup-erase x id p.sending_acks, elem-discard id x p.received_unacked)

pub ack_fails-OwesAt : (id : ℕ) (p : Proxy) (x : ℕ) → OwesAt p x → OwesAt (ack_fails id p) x
unfolding ack_fails signal_close
ack_fails-OwesAt id p x v = ground (arith, v)
