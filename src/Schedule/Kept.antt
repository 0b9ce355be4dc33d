-- ===== src/Schedule/Kept.antt =====
-- What each operation of the schedule (Server/Content/schedule.py) does with a task that waits or that an
-- autopilot has.
use cpy_q.Prelude.{
  ℕ, ◌<◌, ◌≡◌, refl, sym, ap, ◌∙◌, ◌⊎◌, inl, inr, Bool, true, Option, none, some, List, [], ◌∷◌,
  ◌++◌, elem, arith, ◌==◌, Option-cases, Bool-cases,
}
use cpy_q.Prelude.Dict.{lookup, erase, lookup-insert, lookup-erase}
use cpy_q.Prelude.Raises.{Raises, returns, raises}
use cpy_q.Schedule.{
  Manager, ScheduleError, Outside, set_task, connect_autopilot, requeue, disconnect_autopilot,
  first_such, assign, after_assign,
}

-- An autopilot of the table has the task.
abbrev pub IsAssigned : ℕ → Manager → Type 0
IsAssigned task manager =
    (token : ℕ) × (ref : ℕ) × (lookup token manager.autopilots ≡ some ref)
    × ((manager.objects ref).task ≡ some task)

-- The task waits in the queue, or an autopilot of the table has it.
abbrev pub IsKept : ℕ → Manager → Type 0
IsKept task manager = (elem task manager.tasks ≡ true) ⊎ IsAssigned task manager

-- Objects of the table are in use.
abbrev pub InUse : Manager → Type 0
InUse manager =
    (token ref : ℕ) → lookup token manager.autopilots ≡ some ref → ref < manager.next_object

pub elem_append :
    (task new : ℕ) (tasks : List ℕ) → elem task tasks ≡ true → elem task (tasks ++ new ∷ []) ≡ true
elem_append task new [] h = cc
elem_append task new (t ∷ tasks) h = ground (arith, elem_append task new tasks)

elem_last : (task : ℕ) (tasks : List ℕ) → elem task (tasks ++ task ∷ []) ≡ true
elem_last task [] = ground arith
elem_last task (t ∷ tasks) = ground (arith, elem_last task tasks)

pub connect-IsKept :
    (token task : ℕ) (manager : Manager)
    → InUse manager
    → lookup token manager.autopilots ≡ none
    → IsKept task manager
    → IsKept task (connect_autopilot token manager)
unfolding connect_autopilot
connect-IsKept token task manager used free (inl waits) = inl waits
connect-IsKept token task manager used free (inr (t, ref, there, has)) = inr (
  t,
  ref,
  ground (arith, free, there, lookup-insert t token manager.next_object manager.autopilots),
  ground (arith, used t ref there, has),
)

requeue-IsKept :
    (token ref task : ℕ) (manager : Manager) (held : Option ℕ)
    → lookup token manager.autopilots ≡ some ref
    → (manager.objects ref).task ≡ held
    → IsKept task manager
    → IsKept task (requeue held (record manager { autopilots = erase token manager.autopilots }))
requeue-IsKept token ref task manager none there free (inl waits) = inl waits
requeue-IsKept token ref task manager (some old) there has (inl waits) =
    inl (elem_append task old manager.tasks waits)
requeue-IsKept token ref task manager held there has (inr (t, r, there', has')) =
    elim (Bool-cases (t == token)) [
      | inr other ↦
          requeued held r
            (t, r, ground (arith, other, there', lookup-erase t token manager.autopilots), has')
      | inl same ↦ own held (sym has ∙ ap (λ x. (manager.objects x).task) (one same) ∙ has')
    ]
  where
    rest : Manager
    rest = record manager { autopilots = erase token manager.autopilots }

    one : (t == token) ≡ true → ref ≡ r
    one same = ground (arith, same, there, there')

    requeued : (o : Option ℕ) (x : ℕ) → IsAssigned task rest → IsKept task (requeue o rest)
    requeued none x a = inr a
    requeued (some old) x a = inr a

    own : (o : Option ℕ) → o ≡ some task → IsKept task (requeue o rest)
    own none e = cc
    own (some old) e = inl (ground (arith, e, elem_last old manager.tasks))

pub disconnect-IsKept :
    (token task : ℕ) (manager : Manager)
    → IsKept task manager
    → IsKept task (disconnect_autopilot token manager).1
unfolding disconnect_autopilot
disconnect-IsKept token task manager kept = elim (Option-cases (lookup token manager.autopilots)) [
  | inl missing ↦ rw (missing, disconnect_autopilot) kept
  | inr (ref, there) ↦
      rw (there, disconnect_autopilot)
        (requeue-IsKept token ref task manager (manager.objects ref).task there refl kept)
]

pub assign-IsKept :
    (outside : Outside) (ref new task : ℕ) (manager : Manager)
    → IsKept task manager
    → IsKept task (assign outside ref new manager).1
unfolding assign set_task
assign-IsKept outside ref new task manager (inl waits) = inl (ground arith)
assign-IsKept outside ref new task manager (inr (t, r, there, has)) =
    inr (t, r, ground arith, ground arith)

pub assigned-IsKept :
    (outside : Outside) (token ref task : ℕ) (manager : Manager)
    → lookup token manager.autopilots ≡ some ref
    → (manager.objects ref).task ≡ none
    → IsKept task (assign outside ref task manager).1
unfolding assign set_task
assigned-IsKept outside token ref task manager there free =
    inr (token, ref, ground arith, ground arith)

pub after_assign-IsKept :
    (task : ℕ) (r : Raises ScheduleError ℕ × Manager)
    → IsKept task r.1
    → IsKept task (after_assign r).1
after_assign-IsKept task (raises error, manager) kept = kept
after_assign-IsKept task (returns token, manager) kept = kept

pub first_such-elem :
    (test : ℕ → Bool) (x : ℕ) (xs : List ℕ)
    → test x ≡ true
    → elem x xs ≡ true
    → ((first_such test xs).0 ≡ some x) ⊎ (elem x (first_such test xs).1 ≡ true)
unfolding first_such
first_such-elem test x [] good h = cc
first_such-elem test x (y ∷ ys) good h = elim (Bool-cases (x == y)) [
  | inl same ↦ inl (ground (arith, ap test (the_same same)))
  | inr other ↦ elim (first_such-elem test x ys good (ground (arith, other))) [
    | inl e ↦ elim (Bool-cases (test y)) [
      | inl first ↦ inr (ground (arith, other))
      | inr miss ↦ inl (ground (arith, e))
    ]
    | inr e ↦ elim (Bool-cases (test y)) [
      | inl first ↦ inr (ground (arith, other))
      | inr miss ↦ inr (ground (arith, e))
    ]
  ]
]
  where
    the_same : (x == y) ≡ true → x ≡ y
    the_same e = ground arith
