-- ===== src/Proxy/WoundDown.antt =====
-- What `close` of Common/WebSocket/response.py leaves of a proxy's tasks and its queue, and that no task
-- brings any of it back.
use cpy_q.Prelude.{
  ℕ, ◌≡◌, refl, sym, ap, subst, ◌∙◌, inl, inr, Bool, true, false, some, List, [], ◌∷◌, map,
  if◌then◌else◌, arith, Option-cases,
}
use cpy_q.Prelude.Dict.{Dict, lookup}
use cpy_q.Messages.{CloseCode}
use cpy_q.Proxy.{
  Timer, ended, Closing, not_closing, closing_transport, cancelling, waiting_for_tasks, shut_down,
  Proxy, running, signal_close, close, transport_closed, cancel_tasks, tasks_done,
}
use cpy_q.Proxy.Steps.{
  Step, starts, reads, transport_ends, sends, event_goes, ack_begins, ack_goes, ack_lost,
  timer_starts, timer_expires, closes, close_task, close_goes, takes, wait_for_close, close_goes_on,
  step, run,
}
use cpy_q.Proxy.Quiet.{Quiet, start-Quiet, reader-Quiet, reader_end-Quiet, send_event-Quiet}
use cpy_q.Proxy.Shutdown.{
  event_goes_on-Quiet, ack_starts-Quiet, ack_goes_on-Quiet, ack_fails-Quiet, timer_goes_on-Quiet,
  timer_wakes-Quiet, take-Quiet,
}
use cpy_q.Proxy.Calm.{
  IsCancelled, Calm, reader-Calm, reader_end-Calm, start-Calm, send_event-Calm, event_goes_on-Calm,
  take-Calm, ack_starts-none, ack_goes_on-none, ack_fails-none, timer_goes_on-none,
  timer_wakes-none,
}

-- What holds at each stage of `close`.
abbrev pub Wound : Closing → Proxy → Type 0
Wound not_closing p = Unit
Wound (closing_transport code) p = p.closed ≡ true
Wound cancelling p = p.closed ≡ true
Wound waiting_for_tasks p = (p.closed ≡ true) × IsCancelled p
Wound shut_down p = (p.closed ≡ true) × IsCancelled p × (p.queue_open ≡ false)

abbrev pub WoundDown : Proxy → Type 0
WoundDown p = Wound p.closing p

keep-WoundDown :
    (p q : Proxy)
    → Quiet p q
    → (p.closed ≡ true → IsCancelled p → IsCancelled q × (q.queue_open ≡ p.queue_open))
    → WoundDown p
    → WoundDown q
keep-WoundDown p q f g v = subst (λ stage. Wound stage q) (sym f.4) (go p.closing v)
  where
    go : (stage : Closing) → Wound stage p → Wound stage q
    go not_closing h = tt
    go (closing_transport code) h = f.1 h
    go cancelling h = f.1 h
    go waiting_for_tasks (closed, cancelled) = (f.1 closed, (g closed cancelled).0)
    go shut_down (closed, cancelled, shut) =
        let (cancelled', same) = g closed cancelled in (f.1 closed, cancelled', same ∙ shut)

calm : (p q : Proxy) → Quiet p q → Calm p q → WoundDown p → WoundDown q
calm p q f g = keep-WoundDown p q f (λ closed cancelled. ((g closed).1 cancelled, (g closed).2))

-- A step that does nothing where the tasks are cancelled.
idle : (p q : Proxy) → Quiet p q → (IsCancelled p → q ≡ p) → WoundDown p → WoundDown q
idle p q f g = keep-WoundDown p q f (λ closed cancelled.
    (subst IsCancelled (sym (g cancelled)) cancelled, ap (λ x. x.queue_open) (g cancelled)))

lookup-map_ended :
    (id : ℕ) (timer : Timer) (timers : Dict Timer)
    → lookup id (map (λ entry. (entry.0, ended)) timers) ≡ some timer
    → timer ≡ ended
unfolding lookup
lookup-map_ended id timer [] h = cc
lookup-map_ended id timer (entry ∷ rest) h = ground (arith, h, lookup-map_ended id timer rest)

close-WoundDown : (code : CloseCode) (p : Proxy) → WoundDown p → WoundDown (close code p)
unfolding close
close-WoundDown code p v = go (running p)
  where
    go :
        (due : Bool)
        → WoundDown
            (if due then record p { closed = true; closing = closing_transport code } else p)
    go true = refl
    go false = v

wait_for_close-WoundDown : (p : Proxy) → WoundDown p → WoundDown (wait_for_close p)
unfolding wait_for_close
wait_for_close-WoundDown p v = elim (Option-cases p.close_future) [
  | inl missing ↦ rw (missing, wait_for_close) v
  | inr (code, e) ↦ rw (e, wait_for_close) (close-WoundDown code p v)
]

transport_closed-closed :
    (code : CloseCode) (p : Proxy) → p.closed ≡ true → (transport_closed code p).closed ≡ true
unfolding transport_closed signal_close
transport_closed-closed code p h = ground arith

tasks_done-WoundDown :
    (p : Proxy)
    → p.closing ≡ waiting_for_tasks
    → (p.closed ≡ true) × IsCancelled p
    → WoundDown (tasks_done p)
unfolding tasks_done
tasks_done-WoundDown p e h = go p.reading
  where
    go :
        (reading : Bool)
        → WoundDown (if reading then p else record p { queue_open = false; closing = shut_down })
    go true = subst (λ stage. Wound stage p) (sym e) h
    go false = (h.0, h.1, refl)

close_goes_on-WoundDown : (p : Proxy) → WoundDown p → WoundDown (close_goes_on p)
unfolding close_goes_on
close_goes_on-WoundDown p v = go p.closing refl v
  where
    go : (stage : Closing) → p.closing ≡ stage → Wound stage p → WoundDown (close_goes_on p)
    go not_closing e h = rw (e, close_goes_on) v
    go (closing_transport code) e h =
        unfold transport_closed in rw (e, close_goes_on) (transport_closed-closed code p h)
    go cancelling e h =
        unfold cancel_tasks in
        rw (e, close_goes_on)
          (h, (refl, refl, (λ id timer. lookup-map_ended id timer p.sent_unacked)))
    go waiting_for_tasks e h = rw (e, close_goes_on) (tasks_done-WoundDown p e h)
    go shut_down e h = rw (e, close_goes_on) v

step-WoundDown : (s : Step) (p : Proxy) → WoundDown p → WoundDown (step s p)
unfolding step
step-WoundDown starts p = calm p _ (start-Quiet p) (start-Calm p)
step-WoundDown (reads now frame) p = calm p _ (reader-Quiet now frame p) (reader-Calm now frame p)
step-WoundDown (transport_ends member raw) p =
    calm p _ (reader_end-Quiet member raw p) (reader_end-Calm member raw p)
step-WoundDown (sends event) p = calm p _ (send_event-Quiet event p) (send_event-Calm event p)
step-WoundDown (event_goes id) p = calm p _ (event_goes_on-Quiet id p) (event_goes_on-Calm id p)
step-WoundDown (ack_begins id) p = idle p _ (ack_starts-Quiet id p) (λ v. ack_starts-none id p v.0)
step-WoundDown (ack_goes id) p = idle p _ (ack_goes_on-Quiet id p) (λ v. ack_goes_on-none id p v.1)
step-WoundDown (ack_lost id) p = idle p _ (ack_fails-Quiet id p) (λ v. ack_fails-none id p v.1)
step-WoundDown (timer_starts id) p =
    idle p _ (timer_goes_on-Quiet id p) (λ v. timer_goes_on-none id p v.2)
step-WoundDown (timer_expires id) p =
    idle p _ (timer_wakes-Quiet id p) (λ v. timer_wakes-none id p v.2)
step-WoundDown (closes code) p = close-WoundDown code p
step-WoundDown close_task p = wait_for_close-WoundDown p
step-WoundDown close_goes p = close_goes_on-WoundDown p
step-WoundDown takes p = calm p _ (take-Quiet p) (take-Calm p)

pub run-WoundDown : (steps : List Step) (p : Proxy) → WoundDown p → WoundDown (run steps p)
unfolding run
run-WoundDown [] p v = v
run-WoundDown (s ∷ steps) p v = run-WoundDown steps (step s p) (step-WoundDown s p v)
