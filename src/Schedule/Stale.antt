-- ===== src/Schedule/Stale.antt =====
-- A token that disconnects and connects again while its first Autopilot object is still queued
-- (Server/Content/schedule.py): whether an autopilot is connected is asked of its token. And an autopilot
-- that disconnects while the periodic task, which has taken it, waits for a task.
use cpy_q.Prelude.{ℕ, ◌≡◌, true, false, none, some, [], ◌∷◌, arith}
use cpy_q.Prelude.Dict.{lookup, insert, erase}
use cpy_q.Schedule.{
  Outside, connected, set_task, queue_task, connect_autopilot, disconnect_autopilot, first_such,
  wait_for_autopilot, wait_for_task, assign, looking, has_taken, stopped, task_coro, new_manager,
}

-- From the start, with one pending task in the queue: the token connects, disconnects and connects
-- again, the periodic task assigns the task, and the token disconnects. The task was given to the
-- first Autopilot object, which the table has no more, so that no one puts it back: it is neither
-- in the queue nor with an autopilot of the table.
pub stale_autopilot :
    (outside : Outside) (token task : ℕ)
    → connected outside token ≡ true
    → outside.pending task ≡ true
    → let m₀ = record new_manager { tasks = task ∷ [] } in
      let m₁ = connect_autopilot token m₀ in
      let m₂ = (disconnect_autopilot token m₁).1 in
      let m₃ = connect_autopilot token m₂ in
      let (coro, m₃') = task_coro outside looking m₃ in
      let (coro', m₄) = task_coro outside coro m₃' in
      let m₅ = (disconnect_autopilot token m₄).1 in
      (m₁.tasks ≡ task ∷ [])
      × (m₂.tasks ≡ task ∷ [])
      × (coro ≡ has_taken 0)
      × (coro' ≡ looking)
      × ((m₄.objects 0).task ≡ some task)
      × (lookup token m₄.autopilots ≡ some 1)
      × ((m₄.objects 1).task ≡ none)
      × (m₅.tasks ≡ [])
      × (m₅.autopilots ≡ [])
unfolding connect_autopilot disconnect_autopilot task_coro wait_for_autopilot wait_for_task assign
    set_task first_such lookup insert erase
stale_autopilot outside token task c p = ground arith

-- From the start: the token connects, the periodic task takes its autopilot, and waits for a task; the
-- token disconnects, and a task is queued. The periodic task gives it to the autopilot that the table
-- has no more, and ends with an exception, as the token has no proxy: the task is lost.
pub taken_autopilot :
    (before after : Outside) (token task : ℕ)
    → connected before token ≡ true
    → after.has_proxy token ≡ false
    → after.pending task ≡ true
    → let m₁ = connect_autopilot token new_manager in
      let (coro, m₂) = task_coro before looking m₁ in
      let m₃ = queue_task task (disconnect_autopilot token m₂).1 in
      let (coro', m₄) = task_coro after coro m₃ in
      (coro ≡ has_taken 0) × (coro' ≡ stopped) × (m₄.tasks ≡ []) × (m₄.autopilots ≡ [])
unfolding connect_autopilot disconnect_autopilot task_coro wait_for_autopilot wait_for_task assign
    set_task first_such lookup insert erase
taken_autopilot before after token task c gone p = ground (arith, c, gone, p)
