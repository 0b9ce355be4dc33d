-- ===== src/Schedule.antt =====
-- Server/Content/schedule.py: the autopilots and the two queues of the class AutopilotManager, and
-- what Server/Content/websocket_service.py does with them. Autopilot objects are changed in place,
-- and the table and the queue refer to them. A task is its id; whether it is pending, and whether a
-- token has a proxy, are arguments, since tasks and connections are kept elsewhere.
pub mod Kept
pub mod Tasks
pub mod Stale
mod Tests
use cpy_q.Prelude.{
  ℕ, suc, Bool, true, false, not, ◌&&◌, Option, none, some, is_some, List, [], ◌∷◌, ◌++◌, ◌==◌,
  if◌then◌else◌,
}
use cpy_q.Prelude.Dict.{Dict, lookup, insert, erase}
use cpy_q.Prelude.Raises.{Raises, returns, raises}
use cpy_q.Server.{update}

pub record Autopilot : Type 0 where
  pub token : ℕ
  pub task : Option ℕ

pub record Manager : Type 0 where
  pub objects : ℕ → Autopilot
  pub next_object : ℕ
  pub autopilots : Dict ℕ
  pub available : List ℕ
  pub tasks : List ℕ

-- `RuntimeError`, by its message, and `KeyError`
pub data ScheduleError : Type 0 where
  has_no_proxy is_not_running is_busy is_not_busy no_autopilot : ScheduleError

-- What is kept elsewhere, at one time: whether a token has a proxy in its session's connections, whether
-- that is running, and whether a task is pending.
pub record Outside : Type 0 where
  pub has_proxy : ℕ → Bool
  pub running : ℕ → Bool
  pub pending : ℕ → Bool

-- `Autopilot.connected`, for its token
abbrev pub connected : Outside → ℕ → Bool
connected outside token = outside.has_proxy token && outside.running token

abbrev pub new_manager : Manager
new_manager = record {
  objects = λ ref. record { token = 0; task = none };
  next_object = 0;
  autopilots = [];
  available = [];
  tasks = [];
}

abbrev pub busy : Autopilot → Bool
busy autopilot = is_some autopilot.task

unfoldable pub set_task : ℕ → ℕ → Manager → Raises ScheduleError Unit × Manager
set_task ref task manager = if busy (manager.objects ref) then (raises is_busy, manager) else (
  returns tt,
  record manager {
    objects = update manager.objects ref (record (manager.objects ref) { task = some task });
  },
)

unfoldable pub clear_task : ℕ → Manager → Raises ScheduleError ℕ × Manager
clear_task ref manager = elim (manager.objects ref).task [
  | none ↦ (raises is_not_busy, manager)
  | some task ↦ (
    returns task,
    record manager {
      objects = update manager.objects ref (record (manager.objects ref) { task = none });
    },
  )
]

abbrev pub queue_autopilot : ℕ → Manager → Manager
queue_autopilot ref manager = record manager { available = manager.available ++ ref ∷ [] }

abbrev pub queue_task : ℕ → Manager → Manager
queue_task task manager = record manager { tasks = manager.tasks ++ task ∷ [] }

-- A new Autopilot object is not busy, so it is queued.
unfoldable pub connect_autopilot : ℕ → Manager → Manager
connect_autopilot token manager = queue_autopilot manager.next_object (record manager {
  objects = update manager.objects manager.next_object (record { token = token; task = none });
  next_object = suc manager.next_object;
  autopilots = insert token manager.next_object manager.autopilots;
})

-- `if autopilot.busy: await self.queue_task(autopilot.task)`
abbrev pub requeue : Option ℕ → Manager → Manager
requeue none manager = manager
requeue (some task) manager = queue_task task manager

unfoldable pub disconnect_autopilot : ℕ → Manager → Raises ScheduleError Unit × Manager
disconnect_autopilot token manager = elim (lookup token manager.autopilots) [
  | none ↦ (raises no_autopilot, manager)
  | some ref ↦ (
    returns tt,
    requeue (manager.objects ref).task
        (record manager { autopilots = erase token manager.autopilots }),
  )
]

-- The first of a queue that passes a test, and the queue after it; the loop goes on waiting where
-- there is none.
unfoldable pub first_such : (ℕ → Bool) → List ℕ → Option ℕ × List ℕ
first_such test [] = (none, [])
first_such test (x ∷ rest) =
    let later = first_such test rest in if test x then (some x, rest) else later

unfoldable pub wait_for_autopilot : (ℕ → Bool) → Manager → Option ℕ × Manager
wait_for_autopilot connected manager =
    let (found, rest) =
      first_such (λ ref. connected (manager.objects ref).token) manager.available in
    (found, record manager { available = rest })

unfoldable pub wait_for_task : (ℕ → Bool) → Manager → Option ℕ × Manager
wait_for_task pending manager =
    let (found, rest) = first_such pending manager.tasks in (found, record manager { tasks = rest })

-- `AutopilotWebSocketService.task_coro`, from `set_task`, which has no `await` before the transport: the
-- payload is sent over the token's proxy, which raises where it is not running. (A connection that is
-- reset while it is sent is only logged.)
unfoldable pub assign : Outside → ℕ → ℕ → Manager → Raises ScheduleError ℕ × Manager
unfolding set_task
assign outside ref task manager =
    let (result, given) = set_task ref task manager in
    elim result [
      | raises error ↦ (raises error, given)
      | returns a ↦
          let token = (given.objects ref).token in
          if not (outside.has_proxy token)
          then (raises has_no_proxy, given)
          else if not (outside.running token)
          then (raises is_not_running, given)
          else (returns token, given)
    ]

-- Where the periodic task is that runs `task_coro` again and again: it is about to take an autopilot, or
-- waits for one, it has taken one and waits for a task, or an exception has ended it.
pub data Coro : Type 0 where
  looking : Coro
  has_taken : ℕ → Coro
  stopped : Coro

abbrev pub after_assign : Raises ScheduleError ℕ × Manager → Coro × Manager
after_assign (raises error, manager) = (stopped, manager)
after_assign (returns token, manager) = (looking, manager)

-- `task_coro` of AutopilotWebSocketService from the `await` where it is to the next one; anything may
-- happen in between.
unfoldable pub task_coro : Outside → Coro → Manager → Coro × Manager
unfolding wait_for_autopilot wait_for_task assign
task_coro outside looking manager =
    let (autopilot, waiting) = wait_for_autopilot (connected outside) manager in
    elim autopilot [ none ↦ (looking, waiting) | some ref ↦ (has_taken ref, waiting) ]
task_coro outside (has_taken ref) manager =
    let (task, taken) = wait_for_task outside.pending manager in
    elim task [
      | none ↦ (has_taken ref, taken)
      | some id ↦ after_assign (assign outside ref id taken)
    ]
task_coro outside stopped manager = (stopped, manager)
