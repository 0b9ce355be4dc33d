-- ===== src/Resource/Tests.antt =====
-- `lock` and `unlock` of Server/Content/resource.py on concrete objects.
use cpy_q.Prelude.{ℕ, ◌≡◌, refl, Bool, ◌||◌, some, List, [], ◌∷◌, arith, ◌==◌}
use cpy_q.Server.{Server, set_session, set_resource}
use cpy_q.Server.Sample.{session, resource, sample}
use cpy_q.Resource.{lock, unlock}
use cpy_q.Resource.Linked.{Linked, Call, locks, unlocks, call, run, run-Linked}

-- Sessions 1 to 3 have distinct ids.
abbrev live : ℕ → Bool
live s = s == 1 || (s == 2 || s == 3)

start-Linked : Linked live sample
start-Linked = record {
  live_holder = λ r s h. cc;
  held = λ r s h. cc;
  holds = λ s i h. cc;
  unique = λ r r' s h h'. cc;
  distinct = λ s s' l l' e. ground arith;
}

abbrev history : List Call
history = locks 4 1 ∷ locks 4 2 ∷ unlocks 9 4 2 ∷ unlocks 9 4 1 ∷ locks 4 2 ∷ []

history_holder : ((run history sample).resources 4).session ≡ some 2
unfolding run call lock unlock
history_holder = refl

run-Linked_example : Linked live (run history sample)
run-Linked_example =
    run-Linked live history sample start-Linked (refl, (refl, (refl, (refl, (refl, tt)))))

-- Object 0 holds resource 40.
abbrev held : Server
held =
    set_resource 4 (record (resource 4) { session = some 0 })
      (set_session 0 (record (session 0) { resource_id = some 40 }) sample)
