-- ===== src/Schedule/Tasks.antt =====
-- Where the tasks of the schedule (Server/Content/schedule.py) are, whatever is done with it.
use cpy_q.Prelude.{ℕ, ◌≡◌, subst, inl, inr, true, none, some, List, [], ◌∷◌, arith, Option-cases}
use cpy_q.Prelude.Dict.{lookup, lookup-insert, lookup-erase}
use cpy_q.Schedule.{
  Manager, Outside, set_task, queue_task, connect_autopilot, disconnect_autopilot, first_such,
  wait_for_autopilot, wait_for_task, assign, Coro, looking, has_taken, stopped, task_coro,
}
use cpy_q.Schedule.Kept.{
  IsKept, InUse, elem_append, connect-IsKept, disconnect-IsKept, assign-IsKept, assigned-IsKept,
  after_assign-IsKept, first_such-elem,
}

-- What the autopilots, the services and the tasks do, one after another: `goes` is a stretch of the
-- periodic task.
pub data Event : Type 0 where
  connects disconnects queues : ℕ → Event
  goes : Outside → Event

unfoldable pub step : Event → Coro × Manager → Coro × Manager
step (connects token) (coro, manager) = (coro, connect_autopilot token manager)
step (disconnects token) (coro, manager) = (coro, (disconnect_autopilot token manager).1)
step (queues task) (coro, manager) = (coro, queue_task task manager)
step (goes outside) (coro, manager) = task_coro outside coro manager

unfoldable pub run : List Event → Coro × Manager → Coro × Manager
run [] state = state
run (event ∷ events) state = run events (step event state)

-- Where a stretch of the periodic task gives a task to the autopilot that it has taken, that is then an
-- autopilot of the table without a task.
abbrev pub GivesWell : Outside → Coro × Manager → Type 0
GivesWell outside (has_taken ref, manager) =
    (new : ℕ)
    → (wait_for_task outside.pending manager).0 ≡ some new
    → ((token : ℕ) × (lookup token manager.autopilots ≡ some ref))
      × ((manager.objects ref).task ≡ none)
GivesWell outside (_, manager) = Unit

-- A token connects where it is not in the table; and whenever the periodic task goes on, the task is
-- pending, and a task is given to an autopilot of the table without one.
abbrev pub IsProper : ℕ → Event → Coro × Manager → Type 0
IsProper task (connects token) (coro, manager) = lookup token manager.autopilots ≡ none
IsProper task (disconnects token) state = Unit
IsProper task (queues new) state = Unit
IsProper task (goes outside) state = (outside.pending task ≡ true) × GivesWell outside state

abbrev pub AllProper : ℕ → List Event → Coro × Manager → Type 0
AllProper task [] state = Unit
AllProper task (event ∷ events) state =
    IsProper task event state × AllProper task events (step event state)

waiting-IsKept :
    (outside : Outside) (task : ℕ) (manager : Manager)
    → IsKept task manager
    → IsKept task (task_coro outside looking manager).1
unfolding task_coro wait_for_autopilot
waiting-IsKept outside task manager (inl waits) = inl (ground (arith, waits))
waiting-IsKept outside task manager (inr (t, r, there, has)) =
    inr (t, r, ground (arith, there), ground (arith, has))

module _ (outside : Outside) (ref task : ℕ) (manager : Manager)
    (good : outside.pending task ≡ true) where
  -- The state after a task is taken from the queue.
  abbrev taken : Manager
  taken = record manager { tasks = (first_such outside.pending manager.tasks).1 }

  left-IsKept :
      IsKept task manager → (first_such outside.pending manager.tasks).0 ≡ none → IsKept task taken
  left-IsKept (inr a) e = inr a
  left-IsKept (inl waits) e = elim (first_such-elem outside.pending task manager.tasks good waits) [
    | inl mine ↦ cc (mine, e)
    | inr stays ↦ inl stays
  ]

  given-IsKept :
      (new : ℕ)
      → ((token : ℕ) × (lookup token manager.autopilots ≡ some ref))
        × ((manager.objects ref).task ≡ none)
      → IsKept task manager
      → (first_such outside.pending manager.tasks).0 ≡ some new
      → IsKept task (assign outside ref new taken).1
  given-IsKept new p (inr a) e = assign-IsKept outside ref new task taken (inr a)
  given-IsKept new ((token, there), free) (inl waits) e =
      elim (first_such-elem outside.pending task manager.tasks good waits) [
        | inr stays ↦ assign-IsKept outside ref new task taken (inl stays)
        | inl mine ↦
            subst (λ n. IsKept task (assign outside ref n taken).1) (same mine)
              (assigned-IsKept outside token ref task taken there free)
      ]
    where
      same : (first_such outside.pending manager.tasks).0 ≡ some task → task ≡ new
      same mine = ground arith

  giving-IsKept :
      GivesWell outside (has_taken ref, manager)
      → IsKept task manager
      → IsKept task (task_coro outside (has_taken ref) manager).1
  unfolding task_coro wait_for_task
  giving-IsKept proper kept = elim (Option-cases (first_such outside.pending manager.tasks).0) [
    | inl e ↦ rw (e, task_coro) (left-IsKept kept e)
    | inr (new, e) ↦
        rw (e, task_coro)
          (after_assign-IsKept task (assign outside ref new taken)
            (given-IsKept new (proper new e) kept e))
  ]

step-InUse : (event : Event) (state : Coro × Manager) → InUse state.1 → InUse (step event state).1
unfolding step connect_autopilot disconnect_autopilot task_coro wait_for_autopilot wait_for_task
    assign set_task
step-InUse (connects token) (coro, manager) v t r e =
    ground (arith, v t r, lookup-insert t token manager.next_object manager.autopilots)
step-InUse (disconnects token) (coro, manager) v t r e =
    ground (arith, v t r, lookup-erase t token manager.autopilots)
step-InUse (queues task) (coro, manager) v t r e = v t r e
step-InUse (goes outside) (looking, manager) v t r e = ground (arith, v t r)
step-InUse (goes outside) (has_taken ref, manager) v t r e = ground (arith, v t r)
step-InUse (goes outside) (stopped, manager) v t r e = v t r e

step-IsKept :
    (event : Event) (task : ℕ) (state : Coro × Manager)
    → InUse state.1
    → IsProper task event state
    → IsKept task state.1
    → IsKept task (step event state).1
unfolding step task_coro
step-IsKept (connects token) task (coro, manager) v proper kept =
    connect-IsKept token task manager v proper kept
step-IsKept (disconnects token) task (coro, manager) v proper kept =
    disconnect-IsKept token task manager kept
step-IsKept (queues new) task (coro, manager) v proper (inl waits) =
    inl (elem_append task new manager.tasks waits)
step-IsKept (queues new) task (coro, manager) v proper (inr a) = inr a
step-IsKept (goes outside) task (looking, manager) v proper kept =
    waiting-IsKept outside task manager kept
step-IsKept (goes outside) task (has_taken ref, manager) v (good, proper) kept =
    giving-IsKept outside ref task manager good proper kept
step-IsKept (goes outside) task (stopped, manager) v proper kept = kept

-- A task that stays pending is not lost: where it waits in the queue, or an autopilot of the table has
-- it, that is so after any connections, disconnections, new tasks and stretches of the periodic task
-- too, in any order and wherever that task is, as long as no token connects that is in the table
-- already, and an autopilot that is given a task is, at the time it is given, the table's and has none:
-- so it has not disconnected since it was taken.
pub run-IsKept :
    (events : List Event) (task : ℕ) (state : Coro × Manager)
    → InUse state.1
    → AllProper task events state
    → IsKept task state.1
    → IsKept task (run events state).1
unfolding run
run-IsKept [] task state v proper kept = kept
run-IsKept (event ∷ events) task state v proper kept =
    run-IsKept events task (step event state) (step-InUse event state v) proper.1
      (step-IsKept event task state v proper.0 kept)
