-- ===== src/Schedule/Tests.antt =====
-- The schedule with token 3 and the tasks 8 and 9.
use cpy_q.Prelude.{◌≡◌, refl, true, none, some, inl, List, [], ◌∷◌}
use cpy_q.Prelude.Dict.{lookup, insert, erase}
use cpy_q.Schedule.{
  Manager, Outside, new_manager, connect_autopilot, disconnect_autopilot, Coro, looking, has_taken,
  task_coro, wait_for_autopilot, wait_for_task, assign, set_task, first_such,
}
use cpy_q.Schedule.Kept.{InUse, IsKept}
use cpy_q.Schedule.Tasks.{
  Event, connects, disconnects, queues, goes, AllProper, step, run, run-IsKept,
}
use cpy_q.Schedule.Stale.{stale_autopilot}

abbrev always : Outside
always = record { has_proxy = λ n. true; running = λ n. true; pending = λ n. true }

abbrev waiting : Manager
waiting = record new_manager { tasks = 8 ∷ [] }

abbrev start : Coro × Manager
start = (looking, waiting)

abbrev events : List Event
events = connects 3 ∷ goes always ∷ queues 9 ∷ goes always ∷ disconnects 3 ∷ goes always ∷ []

run-events :
    ((run events start).0 ≡ looking)
    × ((run events start).1.tasks ≡ 9 ∷ 8 ∷ [])
    × ((run events start).1.autopilots ≡ [])
unfolding run step connect_autopilot disconnect_autopilot task_coro wait_for_autopilot wait_for_task
    assign set_task first_such lookup insert erase
run-events = (refl, refl, refl)

waiting-InUse : InUse waiting
unfolding lookup
waiting-InUse token ref e = cc

events-AllProper : AllProper 8 events start
unfolding step connect_autopilot disconnect_autopilot task_coro wait_for_autopilot wait_for_task
    assign set_task first_such lookup insert erase
events-AllProper =
    (refl, ((refl, tt), (tt, ((refl, (λ new e. ((3, refl), refl))), (tt, ((refl, tt), tt))))))

run-IsKept_example : IsKept 8 (run events start).1
run-IsKept_example = run-IsKept events 8 start waiting-InUse events-AllProper (inl refl)

stale_autopilot_example :
    let m₁ = connect_autopilot 3 waiting in
    let m₂ = (disconnect_autopilot 3 m₁).1 in
    let m₃ = connect_autopilot 3 m₂ in
    let (coro, m₃') = task_coro always looking m₃ in
    let (coro', m₄) = task_coro always coro m₃' in
    let m₅ = (disconnect_autopilot 3 m₄).1 in
    (m₁.tasks ≡ 8 ∷ [])
    × (m₂.tasks ≡ 8 ∷ [])
    × (coro ≡ has_taken 0)
    × (coro' ≡ looking)
    × ((m₄.objects 0).task ≡ some 8)
    × (lookup 3 m₄.autopilots ≡ some 1)
    × ((m₄.objects 1).task ≡ none)
    × (m₅.tasks ≡ [])
    × (m₅.autopilots ≡ [])
stale_autopilot_example = stale_autopilot always 3 8 refl refl
