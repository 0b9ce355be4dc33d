-- ===== src/ResourceService/Unload.antt =====
-- The periodic task of `ResourceService` (Server/Content/resource_service.py).
use cpy_q.Prelude.{
  ℕ, ◌≡◌, refl, Option, none, some, List, [], ◌∷◌, elem, arith, ◌==◌, if◌then◌else◌,
}
use cpy_q.Prelude.Dict.{lookup, lookup-erase}
use cpy_q.Server.{Server}
use cpy_q.Resource.{is_idle}
use cpy_q.Auth.Sweep.{keys}
use cpy_q.Auth.SweptTables.{elem-keys}
use cpy_q.ResourceService.{unload, unload_each, task_coro}

-- What the cache has under an id, unless that resource is idle.
abbrev pub lookup_busy : ℕ → Server → ℕ → Option ℕ
lookup_busy now srv id = elim (lookup id srv.resource_id_to_resource) [
  | none ↦ none
  | some ref ↦ if is_idle now srv.config.resource_grace (srv.resources ref) then none else some ref
]

unload-lookup :
    (now id k : ℕ) (srv : Server)
    → (lookup k (unload now id srv).resource_id_to_resource
        ≡ (if k == id then lookup_busy now srv id else lookup k srv.resource_id_to_resource))
      × ((unload now id srv).resources ≡ srv.resources)
      × ((unload now id srv).config ≡ srv.config)
unfolding unload
unload-lookup now id k srv = ground (arith, lookup-erase k id srv.resource_id_to_resource)

unload_each-lookup :
    (now k : ℕ) (ids : List ℕ) (srv : Server)
    → (lookup k (unload_each now ids srv).resource_id_to_resource
        ≡ (if elem k ids then lookup_busy now srv k else lookup k srv.resource_id_to_resource))
      × ((unload_each now ids srv).resources ≡ srv.resources)
unfolding unload_each
unload_each-lookup now k [] srv = (refl, refl)
unload_each-lookup now k (id ∷ rest) srv =
    ground (arith, unload-lookup now id k srv, unload_each-lookup now k rest (unload now id srv))

-- The task takes exactly the idle resources out of the cache: under each id there is afterwards the
-- resource that was there before, unless nobody held it and its last use is longer ago than the
-- grace; and no resource object is changed.
pub task_coro-lookup :
    (now k : ℕ) (srv : Server)
    → (lookup k (task_coro now srv).resource_id_to_resource ≡ lookup_busy now srv k)
      × ((task_coro now srv).resources ≡ srv.resources)
unfolding task_coro
task_coro-lookup now k srv = ground (
  arith,
  unload_each-lookup now k (keys srv.resource_id_to_resource) srv,
  elem-keys k srv.resource_id_to_resource,
)
