-- ===== src/Proxy/Shutdown.antt =====
-- How a proxy closes (Common/WebSocket/response.py, `close` and `__signal_close__`), whatever its tasks
-- do meanwhile.
use cpy_q.Prelude.{
  ℕ, ◌≡◌, refl, sym, ap, subst, ◌∙◌, ◌≢◌, inl, inr, Bool, true, some, is_some, List, [], ◌∷◌, arith,
  Option-cases,
}
use cpy_q.Prelude.Dict.{lookup, erase}
use cpy_q.Handshake.{pending, fail, ensure_mutable}
use cpy_q.Messages.{CloseCode, PeerRole, PeerType}
use cpy_q.Proxy.{
  Proxy, new_proxy, Closing, not_closing, closing_transport, cancelling, waiting_for_tasks,
  shut_down, close, transport_closed, cancel_tasks, tasks_done, signal_close, send_ack, ack_sent,
  timer_begins, timer_fires,
}
use cpy_q.Proxy.Steps.{
  Step, starts, reads, transport_ends, sends, event_goes, ack_begins, ack_goes, ack_lost,
  timer_starts, timer_expires, closes, close_task, close_goes, takes, event_goes_on, ack_starts,
  ack_goes_on, ack_fails, timer_goes_on, timer_wakes, wait_for_close, close_goes_on, take, step,
  run,
}
use cpy_q.Proxy.Quiet.{
  Quiet, Quiet-refl, wrapped-Quiet, reader-Quiet, reader_end-Quiet, start-Quiet, send_event-Quiet,
  event_sent-Quiet, send_ack-Quiet, ack_sent-Quiet, timer_begins-Quiet, timer_fires-Quiet,
}

pub event_goes_on-Quiet : (id : ℕ) (p : Proxy) → Quiet p (event_goes_on id p)
unfolding event_goes_on
event_goes_on-Quiet id p = elim (Option-cases (lookup id p.sending_events)) [
  | inl missing ↦ rw (missing, event_goes_on) (Quiet-refl p)
  | inr (event, e) ↦
      rw (e, event_goes_on)
        (event_sent-Quiet event (record p { sending_events = erase id p.sending_events }))
]

pub ack_starts-Quiet : (id : ℕ) (p : Proxy) → Quiet p (ack_starts id p)
unfolding ack_starts
ack_starts-Quiet id p = elim (Option-cases (lookup id p.submitted)) [
  | inl missing ↦ rw (missing, ack_starts) (Quiet-refl p)
  | inr (handshake, e) ↦
      rw (e, ack_starts)
        (wrapped-Quiet p (send_ack id handshake (record p { submitted = erase id p.submitted }))
          (send_ack-Quiet id handshake (record p { submitted = erase id p.submitted })))
]

pub ack_goes_on-Quiet : (id : ℕ) (p : Proxy) → Quiet p (ack_goes_on id p)
unfolding ack_goes_on
ack_goes_on-Quiet id p = elim (Option-cases (lookup id p.sending_acks)) [
  | inl missing ↦ rw (missing, ack_goes_on) (Quiet-refl p)
  | inr (handshake, e) ↦
      rw (e, ack_goes_on)
        (wrapped-Quiet p
          (ack_sent id handshake (record p { sending_acks = erase id p.sending_acks }))
          (ack_sent-Quiet id handshake (record p { sending_acks = erase id p.sending_acks })))
]

pub ack_fails-Quiet : (id : ℕ) (p : Proxy) → Quiet p (ack_fails id p)
unfolding ack_fails signal_close
ack_fails-Quiet id p = ground arith

pub timer_goes_on-Quiet : (id : ℕ) (p : Proxy) → Quiet p (timer_goes_on id p)
unfolding timer_goes_on
timer_goes_on-Quiet id p =
    ground (arith, Quiet-refl p, wrapped-Quiet p (timer_begins id p) (timer_begins-Quiet id p))

pub timer_wakes-Quiet : (id : ℕ) (p : Proxy) → Quiet p (timer_wakes id p)
unfolding timer_wakes
timer_wakes-Quiet id p =
    ground (arith, Quiet-refl p, wrapped-Quiet p (timer_fires id p) (timer_fires-Quiet id p))

pub take-Quiet : (p : Proxy) → Quiet p (take p)
unfolding take
take-Quiet p = ground arith

-- Once `close` has awaited the transport, the close future is set and the handshake settled.
abbrev pub IsSettled : Proxy → Type 0
IsSettled p = (is_some p.close_future ≡ true) × (p.handshake_ctx.future ≢ pending)

-- Where `close` has got past the transport, the two futures are settled.
abbrev pub Past : Closing → Proxy → Type 0
Past not_closing p = Unit
Past (closing_transport code) p = Unit
Past other p = IsSettled p

abbrev pub ClosesFutures : Proxy → Type 0
ClosesFutures p = Past p.closing p

Quiet-IsSettled : (p q : Proxy) → Quiet p q → IsSettled p → IsSettled q
Quiet-IsSettled p q f (h, k) = elim (Option-cases p.close_future) [
  | inl missing ↦ cc (h, ap is_some missing)
  | inr (code, e) ↦ (ap is_some (f.0 code e), λ e'. k (sym (ap (λ x. x.future) (f.3 k)) ∙ e'))
]

Quiet-ClosesFutures : (p q : Proxy) → Quiet p q → ClosesFutures p → ClosesFutures q
Quiet-ClosesFutures p q f v = subst (λ s. Past s q) (sym f.4) (move p.closing v)
  where
    move : (stage : Closing) → Past stage p → Past stage q
    move not_closing h = tt
    move (closing_transport code) h = tt
    move cancelling h = Quiet-IsSettled p q f h
    move waiting_for_tasks h = Quiet-IsSettled p q f h
    move shut_down h = Quiet-IsSettled p q f h

close-ClosesFutures :
    (code : CloseCode) (p : Proxy) → ClosesFutures p → ClosesFutures (close code p)
unfolding close
close-ClosesFutures code p v = ground arith

transport_closed-IsSettled : (code : CloseCode) (p : Proxy) → IsSettled (transport_closed code p)
unfolding transport_closed signal_close fail ensure_mutable
transport_closed-IsSettled code p = ground arith

close_goes_on-ClosesFutures : (p : Proxy) → ClosesFutures p → ClosesFutures (close_goes_on p)
unfolding close_goes_on transport_closed
close_goes_on-ClosesFutures p v = go p.closing refl v
  where
    go : (stage : Closing) → p.closing ≡ stage → Past stage p → ClosesFutures (close_goes_on p)
    go not_closing e h = rw (e, close_goes_on) v
    go (closing_transport code) e h = rw (e, close_goes_on) (transport_closed-IsSettled code p)
    go cancelling e h = unfold cancel_tasks in rw (e, close_goes_on) h
    go waiting_for_tasks e h = unfold tasks_done in rw (e, close_goes_on) (ground arith)
    go shut_down e h = rw (e, close_goes_on) v

wait_for_close-ClosesFutures : (p : Proxy) → ClosesFutures p → ClosesFutures (wait_for_close p)
unfolding wait_for_close
wait_for_close-ClosesFutures p v = elim (Option-cases p.close_future) [
  | inl missing ↦ rw (missing, wait_for_close) v
  | inr (code, e) ↦ rw (e, wait_for_close) (close-ClosesFutures code p v)
]

-- A set close code stays; a closed proxy stays closed, and hands nothing more to the transport; and
-- a settled handshake stays as it is.
abbrev pub Keeps : Proxy → Proxy → Type 0
Keeps p q =
    ((c : CloseCode) → p.close_future ≡ some c → q.close_future ≡ some c)
    × (p.closed ≡ true → q.closed ≡ true)
    × (p.closed ≡ true → q.outbox ≡ p.outbox)
    × (p.handshake_ctx.future ≢ pending → q.handshake_ctx ≡ p.handshake_ctx)

-- What each step does, as far as closing goes.
abbrev pub Sound : Proxy → Proxy → Type 0
Sound p q = Keeps p q × (ClosesFutures p → ClosesFutures q)

Quiet-Sound : (p q : Proxy) → Quiet p q → Sound p q
Quiet-Sound p q f = ((f.0, f.1, f.2, f.3), Quiet-ClosesFutures p q f)

close-Keeps : (code : CloseCode) (p : Proxy) → Keeps p (close code p)
unfolding close
close-Keeps code p = ground arith

close-Sound : (code : CloseCode) (p : Proxy) → Sound p (close code p)
close-Sound code p = (close-Keeps code p, close-ClosesFutures code p)

wait_for_close-Keeps : (p : Proxy) → Keeps p (wait_for_close p)
unfolding wait_for_close close
wait_for_close-Keeps p = ground arith

close_goes_on-Keeps : (p : Proxy) → Keeps p (close_goes_on p)
unfolding close_goes_on transport_closed cancel_tasks tasks_done signal_close fail ensure_mutable
close_goes_on-Keeps p = ground arith

pub step-Sound : (s : Step) (p : Proxy) → Sound p (step s p)
unfolding step
step-Sound starts p = Quiet-Sound p _ (start-Quiet p)
step-Sound (reads now frame) p = Quiet-Sound p _ (reader-Quiet now frame p)
step-Sound (transport_ends member raw) p = Quiet-Sound p _ (reader_end-Quiet member raw p)
step-Sound (sends event) p = Quiet-Sound p _ (send_event-Quiet event p)
step-Sound (event_goes id) p = Quiet-Sound p _ (event_goes_on-Quiet id p)
step-Sound (ack_begins id) p = Quiet-Sound p _ (ack_starts-Quiet id p)
step-Sound (ack_goes id) p = Quiet-Sound p _ (ack_goes_on-Quiet id p)
step-Sound (ack_lost id) p = Quiet-Sound p _ (ack_fails-Quiet id p)
step-Sound (timer_starts id) p = Quiet-Sound p _ (timer_goes_on-Quiet id p)
step-Sound (timer_expires id) p = Quiet-Sound p _ (timer_wakes-Quiet id p)
step-Sound (closes code) p = close-Sound code p
step-Sound close_task p = (wait_for_close-Keeps p, wait_for_close-ClosesFutures p)
step-Sound close_goes p = (close_goes_on-Keeps p, close_goes_on-ClosesFutures p)
step-Sound takes p = Quiet-Sound p _ (take-Quiet p)

-- Whatever the tasks of a proxy do, in any order, a close code that is set stays, a closed proxy
-- stays closed and hands nothing more to the transport, and a settled handshake stays as it is.
pub run-Keeps : (steps : List Step) (p : Proxy) → Keeps p (run steps p)
unfolding run
run-Keeps [] p = ((λ c h. h), (λ h. h), (λ h. refl), (λ h. refl))
run-Keeps (s ∷ steps) p =
    let f = (step-Sound s p).0 in
    let g = run-Keeps steps (step s p) in
    (
      (λ c h. g.0 c (f.0 c h)),
      (λ h. g.1 (f.1 h)),
      (λ h. g.2 (f.1 h) ∙ f.2 h),
      (λ h. g.3 (λ e. h (sym (ap (λ x. x.future) (f.3 h)) ∙ e)) ∙ f.3 h),
    )

run_from : (steps : List Step) (p : Proxy) → ClosesFutures p → ClosesFutures (run steps p)
unfolding run
run_from [] p v = v
run_from (s ∷ steps) p v = run_from steps (step s p) ((step-Sound s p).1 v)

-- Of a new proxy, whatever its tasks have done in any order, once `close` has awaited the transport,
-- the close future is set and the handshake is settled, so that no one waits for them for ever.
pub run-ClosesFutures :
    (steps : List Step) (role : PeerRole) (peer_type : PeerType) (ratelimited : Bool)
    (limit interval : ℕ)
    → ClosesFutures (run steps (new_proxy role peer_type ratelimited limit interval))
run-ClosesFutures steps role peer_type ratelimited limit interval =
    run_from steps (new_proxy role peer_type ratelimited limit interval) tt
