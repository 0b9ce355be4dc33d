-- ===== src/Proxy/Progress.antt =====
-- That closing a proxy comes to its end (`close` of Common/WebSocket/response.py).
use cpy_q.Prelude.{
  ℕ, Bool, some, false, zero, suc, ◌≤◌, ◌≡◌, refl, sym, subst, ◌≢◌, List, [], ◌∷◌, arith,
}
use cpy_q.Messages.{CloseCode, PeerRole, PeerType}
use cpy_q.Proxy.{
  Proxy, Timer, ended, new_proxy, Closing, not_closing, closing_transport, cancelling,
  waiting_for_tasks, shut_down, close, transport_closed, cancel_tasks, tasks_done, signal_close,
}
use cpy_q.Proxy.Steps.{
  Step, starts, reads, transport_ends, sends, event_goes, ack_begins, ack_goes, ack_lost,
  timer_starts, timer_expires, closes, close_task, close_goes, takes, wait_for_close, close_goes_on,
  step, run,
}
use cpy_q.Proxy.Quiet.{Quiet, IsOver, start-Quiet, reader-Quiet, reader_end-Quiet, send_event-Quiet}
use cpy_q.Proxy.Shutdown.{
  event_goes_on-Quiet, ack_starts-Quiet, ack_goes_on-Quiet, ack_fails-Quiet, timer_goes_on-Quiet,
  timer_wakes-Quiet, take-Quiet,
}
use cpy_q.Proxy.WoundDown.{Wound, run-WoundDown}
use cpy_q.Prelude.Dict.{lookup}

-- How many stretches of `close` are left
abbrev pub stretches_left : Closing → ℕ
stretches_left not_closing = 4
stretches_left (closing_transport code) = 3
stretches_left cancelling = 2
stretches_left waiting_for_tasks = 1
stretches_left shut_down = 0

-- How often `close` goes on among the steps
abbrev pub turns : List Step → ℕ
turns [] = 0
turns (close_goes ∷ steps) = suc (turns steps)
turns (_ ∷ steps) = turns steps

-- Closing has begun, its reader has ended, and at most that many stretches are left.
abbrev IsClosing : ℕ → Proxy → Type 0
IsClosing n p = IsOver p × (stretches_left p.closing ≤ n) × (n ≤ 3)

Quiet-IsClosing : (n : ℕ) (p q : Proxy) → Quiet p q → IsClosing n p → IsClosing n q
Quiet-IsClosing n p q f (over, left, few) =
    (f.5 over, subst (λ s. stretches_left s ≤ n) (sym f.4) left, few)

close-over : (code : CloseCode) (p : Proxy) → IsOver p → close code p ≡ p
unfolding close
close-over code p over = ground arith

wait_for_close-over : (p : Proxy) → IsOver p → wait_for_close p ≡ p
unfolding wait_for_close close
wait_for_close-over p over = ground arith

close_goes_on-IsClosing : (n : ℕ) (p : Proxy) → IsClosing (suc n) p → IsClosing n (close_goes_on p)
unfolding close_goes_on transport_closed cancel_tasks tasks_done signal_close
close_goes_on-IsClosing n p (over, left, few) = ground arith

at_end : (stage : Closing) → stretches_left stage ≤ 0 → stage ≡ shut_down
at_end not_closing h = let absurd : ⊥ = omega (arith, h) in elim absurd [ ]
at_end (closing_transport code) h = let absurd : ⊥ = omega (arith, h) in elim absurd [ ]
at_end cancelling h = let absurd : ⊥ = omega (arith, h) in elim absurd [ ]
at_end waiting_for_tasks h = let absurd : ⊥ = omega (arith, h) in elim absurd [ ]
at_end shut_down h = refl

abbrev one_less : ℕ → ℕ
one_less zero = zero
one_less (suc n) = n

close_goes_on-done : (n : ℕ) (p : Proxy) → IsClosing n p → IsClosing (one_less n) (close_goes_on p)
unfolding close_goes_on
close_goes_on-done zero p (over, left, few) =
    let e = at_end p.closing left in
    let same : close_goes_on p ≡ p = ground (arith, e) in
    subst (IsClosing zero) (sym same) (over, left, few)
close_goes_on-done (suc n) p h = close_goes_on-IsClosing n p h

-- How many stretches are left after a step, at most
abbrev after_step : Step → ℕ → ℕ
after_step close_goes n = one_less n
after_step _ n = n

step-IsClosing :
    (s : Step) (n : ℕ) (p : Proxy) → IsClosing n p → IsClosing (after_step s n) (step s p)
unfolding step
step-IsClosing starts n p h = Quiet-IsClosing n p (step starts p) (start-Quiet p) h
step-IsClosing (reads now frame) n p h =
    Quiet-IsClosing n p (step (reads now frame) p) (reader-Quiet now frame p) h
step-IsClosing (transport_ends member raw) n p h =
    Quiet-IsClosing n p (step (transport_ends member raw) p) (reader_end-Quiet member raw p) h
step-IsClosing (sends event) n p h =
    Quiet-IsClosing n p (step (sends event) p) (send_event-Quiet event p) h
step-IsClosing (event_goes id) n p h =
    Quiet-IsClosing n p (step (event_goes id) p) (event_goes_on-Quiet id p) h
step-IsClosing (ack_begins id) n p h =
    Quiet-IsClosing n p (step (ack_begins id) p) (ack_starts-Quiet id p) h
step-IsClosing (ack_goes id) n p h =
    Quiet-IsClosing n p (step (ack_goes id) p) (ack_goes_on-Quiet id p) h
step-IsClosing (ack_lost id) n p h =
    Quiet-IsClosing n p (step (ack_lost id) p) (ack_fails-Quiet id p) h
step-IsClosing (timer_starts id) n p h =
    Quiet-IsClosing n p (step (timer_starts id) p) (timer_goes_on-Quiet id p) h
step-IsClosing (timer_expires id) n p h =
    Quiet-IsClosing n p (step (timer_expires id) p) (timer_wakes-Quiet id p) h
step-IsClosing (closes code) n p h = subst (IsClosing n) (sym (close-over code p h.0)) h
step-IsClosing close_task n p h = subst (IsClosing n) (sym (wait_for_close-over p h.0)) h
step-IsClosing close_goes n p h = close_goes_on-done n p h
step-IsClosing takes n p h = Quiet-IsClosing n p (step takes p) (take-Quiet p) h

turns_after :
    (s : Step) (steps : List Step) (n : ℕ) → n ≤ turns (s ∷ steps) → after_step s n ≤ turns steps
turns_after starts steps n h = h
turns_after (reads now frame) steps n h = h
turns_after (transport_ends member raw) steps n h = h
turns_after (sends event) steps n h = h
turns_after (event_goes id) steps n h = h
turns_after (ack_begins id) steps n h = h
turns_after (ack_goes id) steps n h = h
turns_after (ack_lost id) steps n h = h
turns_after (timer_starts id) steps n h = h
turns_after (timer_expires id) steps n h = h
turns_after (closes code) steps n h = h
turns_after close_task steps n h = h
turns_after close_goes steps zero h = omega arith
turns_after close_goes steps (suc n) h = omega (arith, h)
turns_after takes steps n h = h

run_ends :
    (steps : List Step) (n : ℕ) (p : Proxy)
    → IsClosing n p
    → n ≤ turns steps
    → (run steps p).closing ≡ shut_down
unfolding run
run_ends [] n p (over, left, few) h = at_end p.closing (omega (arith, left, h))
run_ends (s ∷ steps) n p c h =
    run_ends steps (after_step s n) (step s p) (step-IsClosing s n p c) (turns_after s steps n h)

begun : (stage : Closing) → stage ≢ not_closing → stretches_left stage ≤ 3
begun not_closing h = elim (h refl) [ ]
begun (closing_transport code) h = omega arith
begun cancelling h = omega arith
begun waiting_for_tasks h = omega arith
begun shut_down h = omega arith

-- Of a new proxy, whatever its tasks have done in any order: where `close` has begun, and the reader has
-- ended, then, whatever the tasks do in between, once `close` itself has gone on three times, it has
-- come to its end. The queue is then shut down, no acknowledgement is on its way, and each timer of a
-- sent event that is still there has ended.
pub run-shut_down :
    (before steps : List Step) (role : PeerRole) (peer_type : PeerType) (ratelimited : Bool)
    (limit interval : ℕ)
    → let p = run before (new_proxy role peer_type ratelimited limit interval) in
      let q = run steps p in
      IsOver p
      → p.closing ≢ not_closing
      → 3 ≤ turns steps
      → (q.closing ≡ shut_down)
        × (q.queue_open ≡ false)
        × (q.submitted ≡ [])
        × (q.sending_acks ≡ [])
        × ((id : ℕ) (timer : Timer) → lookup id q.sent_unacked ≡ some timer → timer ≡ ended)
run-shut_down before steps role peer_type ratelimited limit interval over started h =
    let new = new_proxy role peer_type ratelimited limit interval in
    let p = run before new in
    let end = run_ends steps 3 p (over, begun p.closing started, omega arith) h in
    let (closed, (submitted, acks, timers), shut) =
      subst (λ stage. Wound stage (run steps p)) end
        (run-WoundDown steps p (run-WoundDown before new tt)) in
    (end, shut, submitted, acks, timers)
