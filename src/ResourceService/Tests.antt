-- ===== src/ResourceService/Tests.antt =====
-- The resource service on the sample state.
use cpy_q.Prelude.{◌≡◌, refl, ◌≢◌, ◌⊎◌, true, false, none, some, arith}
use cpy_q.Prelude.Raises.{returns, raises}
use cpy_q.Prelude.Dict.{lookup}
use cpy_q.Access.{view, acquire}
use cpy_q.Access.Decision.{Allowed}
use cpy_q.Server.{set_resource, bind}
use cpy_q.Server.Action.{missing_permission, session_bound, resource_locked, resource_not_owned}
use cpy_q.Server.Sample.{owner, resource, sample}
use cpy_q.Resource.{current_user, is_acquired, lock}
use cpy_q.ResourceService.{
  Identities, acquire_loaded, view_loaded, ResourcePath, quote, awaits, begin_load, finish_load,
  task_coro,
}
use cpy_q.ResourceService.Handlers.{acquire_loaded_cases, view_loaded_cases}
use cpy_q.ResourceService.Unload.{lookup_busy, task_coro-lookup}
use cpy_q.ResourceService.Race.{held_twice}

abbrev new : Identities
new = record { universal = 1; company = 2; safe = 3 }

acquire_loaded_cases_example :
    let r = acquire_loaded new 4 1 sample in
    ((r ≡ (returns 4, set_resource 4 (record (resource 4) { session = some 1 }) (bind 1 40 sample)))
      × Allowed owner acquire owner
      × ((sample.sessions 1).resource_id ≡ none)
      × ((sample.resources 4).session ≡ none))
    ⊎ (((r ≡ (raises (missing_permission acquire), sample)) × ¬ Allowed owner acquire owner)
        ⊎ (((r ≡ (raises session_bound, sample))
              × Allowed owner acquire owner
              × ((sample.sessions 1).resource_id ≢ none))
            ⊎ ((r ≡ (raises (resource_locked (current_user 4 sample)), sample))
                × Allowed owner acquire owner
                × ((sample.sessions 1).resource_id ≡ none)
                × ((sample.resources 4).session ≢ none))))
acquire_loaded_cases_example = acquire_loaded_cases new 4 1 sample (tt, tt, tt)

view_loaded_cases_example :
    let r = view_loaded new 4 1 sample in
    ((r ≡ (returns 4, sample)) × Allowed owner view owner × (is_acquired 4 1 sample ≡ true))
    ⊎ (((r ≡ (raises (missing_permission view), sample)) × ¬ Allowed owner view owner)
        ⊎ ((r ≡ (raises resource_not_owned, sample))
            × Allowed owner view owner
            × (is_acquired 4 1 sample ≡ false)))
view_loaded_cases_example = view_loaded_cases new 4 1 sample (tt, tt, tt)

task_coro-lookup_example :
    (lookup 40 (task_coro 1000 sample).resource_id_to_resource ≡ lookup_busy 1000 sample 40)
    × ((task_coro 1000 sample).resources ≡ sample.resources)
task_coro-lookup_example = task_coro-lookup 1000 40 sample

held_twice_example :
    let path : ResourcePath = record { rtype = quote; rid = some 50 } in
    let (first, srv₁) = finish_load 10 50 (some owner) sample in
    let (second, srv₂) = finish_load 11 50 (some owner) srv₁ in
    let srv₃ = (lock 6 2 srv₂).1 in
    let srv₄ = (lock 7 3 srv₃).1 in
    (begin_load path sample ≡ (returns (awaits 50), sample))
    × (first ≡ returns 6)
    × (second ≡ returns 7)
    × (lookup 50 srv₂.resource_id_to_resource ≡ some 7)
    × ((srv₄.resources 6).id ≡ 50)
    × ((srv₄.resources 7).id ≡ 50)
    × ((srv₄.resources 6).session ≡ some 2)
    × ((srv₄.resources 7).session ≡ some 3)
unfolding lookup
held_twice_example = held_twice 10 11 50 2 3 owner sample refl (omega arith) refl refl
