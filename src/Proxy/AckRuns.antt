-- ===== src/Proxy/AckRuns.antt =====
-- The acknowledgements that a proxy owes (Common/WebSocket/response.py), after any steps of its tasks.
use cpy_q.Prelude.{ℕ, refl, Bool, Option, List, [], ◌∷◌, arith}
use cpy_q.Prelude.Dict.{lookup}
use cpy_q.Handshake.{bind, ensure_mutable}
use cpy_q.Messages.{Event, CloseCode, PeerRole, PeerType}
use cpy_q.Proxy.{
  Proxy, new_proxy, signal_close, start, reader_end, send_event, event_sent, timer_begins,
  timer_fires, close, transport_closed, cancel_tasks, tasks_done,
}
use cpy_q.Proxy.Steps.{
  Step, starts, reads, transport_ends, sends, event_goes, ack_begins, ack_goes, ack_lost,
  timer_starts, timer_expires, closes, close_task, close_goes, takes, event_goes_on, timer_goes_on,
  timer_wakes, wait_for_close, close_goes_on, take, step, run,
}
use cpy_q.Proxy.Shutdown.{ClosesFutures, step-Sound}
use cpy_q.Proxy.Acks.{
  OwesAt, Owes, SameAcks, SameAcks-OwesAt, reader-OwesAt, ack_starts-OwesAt, ack_goes_on-OwesAt,
  ack_fails-OwesAt,
}

start-SameAcks : (p : Proxy) → SameAcks p (start p).1
unfolding start
start-SameAcks p = ground arith

reader_end-SameAcks :
    (member : ℕ → Option CloseCode) (raw : Option ℕ) (p : Proxy)
    → SameAcks p (reader_end member raw p)
unfolding reader_end signal_close
reader_end-SameAcks member raw p = ground arith

send_event-SameAcks : (event : Event) (p : Proxy) → SameAcks p (send_event event p).1
unfolding send_event
send_event-SameAcks event p = ground arith

event_goes_on-SameAcks : (id : ℕ) (p : Proxy) → SameAcks p (event_goes_on id p)
unfolding event_goes_on event_sent bind ensure_mutable
event_goes_on-SameAcks id p = ground arith

timer_goes_on-SameAcks : (id : ℕ) (p : Proxy) → SameAcks p (timer_goes_on id p)
unfolding timer_goes_on timer_begins signal_close
timer_goes_on-SameAcks id p = ground arith

timer_wakes-SameAcks : (id : ℕ) (p : Proxy) → SameAcks p (timer_wakes id p)
unfolding timer_wakes timer_fires signal_close
timer_wakes-SameAcks id p = ground arith

close-SameAcks : (code : CloseCode) (p : Proxy) → SameAcks p (close code p)
unfolding close
close-SameAcks code p = ground arith

wait_for_close-SameAcks : (p : Proxy) → SameAcks p (wait_for_close p)
unfolding wait_for_close close
wait_for_close-SameAcks p = ground arith

take-SameAcks : (p : Proxy) → SameAcks p (take p)
unfolding take
take-SameAcks p = ground arith

close_goes_on-OwesAt :
    (p : Proxy) (x : ℕ) → ClosesFutures p → OwesAt p x → OwesAt (close_goes_on p) x
unfolding close_goes_on transport_closed cancel_tasks tasks_done signal_close
close_goes_on-OwesAt p x settled v = ground (arith, settled, v)

step-Owes : (s : Step) (p : Proxy) → ClosesFutures p → Owes p → Owes (step s p)
unfolding step
step-Owes starts p c v x = SameAcks-OwesAt p (step starts p) x (start-SameAcks p) (v x)
step-Owes (reads now frame) p c v x = reader-OwesAt now frame p x v
step-Owes (transport_ends member raw) p c v x =
    SameAcks-OwesAt p (step (transport_ends member raw) p) x (reader_end-SameAcks member raw p)
      (v x)
step-Owes (sends event) p c v x =
    SameAcks-OwesAt p (step (sends event) p) x (send_event-SameAcks event p) (v x)
step-Owes (event_goes id) p c v x =
    SameAcks-OwesAt p (step (event_goes id) p) x (event_goes_on-SameAcks id p) (v x)
step-Owes (ack_begins id) p c v x = ack_starts-OwesAt id p x v
step-Owes (ack_goes id) p c v x = ack_goes_on-OwesAt id p x v
step-Owes (ack_lost id) p c v x = ack_fails-OwesAt id p x (v x)
step-Owes (timer_starts id) p c v x =
    SameAcks-OwesAt p (step (timer_starts id) p) x (timer_goes_on-SameAcks id p) (v x)
step-Owes (timer_expires id) p c v x =
    SameAcks-OwesAt p (step (timer_expires id) p) x (timer_wakes-SameAcks id p) (v x)
step-Owes (closes code) p c v x =
    SameAcks-OwesAt p (step (closes code) p) x (close-SameAcks code p) (v x)
step-Owes close_task p c v x =
    SameAcks-OwesAt p (step close_task p) x (wait_for_close-SameAcks p) (v x)
step-Owes close_goes p c v x = close_goes_on-OwesAt p x c (v x)
step-Owes takes p c v x = SameAcks-OwesAt p (step takes p) x (take-SameAcks p) (v x)

run-Owes_from : (steps : List Step) (p : Proxy) → ClosesFutures p → Owes p → Owes (run steps p)
unfolding run
run-Owes_from [] p c v = v
run-Owes_from (s ∷ steps) p c v =
    run-Owes_from steps (step s p) ((step-Sound s p).1 c) (step-Owes s p c v)

-- Of a new proxy, after any steps of its tasks in any order, and as long as no close code is set, the
-- ids of the events that are received and not acknowledged are exactly those for which one task
-- waits to send the acknowledgement, or one awaits the transport with it, and not both.
pub run-Owes :
    (steps : List Step) (role : PeerRole) (peer_type : PeerType) (ratelimited : Bool)
    (limit interval : ℕ)
    → Owes (run steps (new_proxy role peer_type ratelimited limit interval))
run-Owes steps role peer_type ratelimited limit interval =
    run-Owes_from steps (new_proxy role peer_type ratelimited limit interval) tt new-Owes
  where
    new-Owes : Owes (new_proxy role peer_type ratelimited limit interval)
    new-Owes x e = unfold lookup in (refl, refl)
