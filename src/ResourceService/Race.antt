-- ===== src/ResourceService/Race.antt =====
-- Two requests for a resource that is not in the cache: each awaits the database, and each makes an
-- object (Server/Content/resource_service.py, `load_resource`).
use cpy_q.Prelude.{ℕ, suc, ◌≡◌, ◌≢◌, none, some, arith}
use cpy_q.Prelude.Dict.{lookup, insert, lookup-insert}
use cpy_q.Prelude.Raises.{returns}
use cpy_q.Access.{User}
use cpy_q.Server.{Server}
use cpy_q.Resource.{make_resource, lock}
use cpy_q.ResourceService.{ResourcePath, quote, awaits, begin_load, finish_load}

-- Where the cache has no resource of the id, and two requests both begin to load it before either
-- has loaded it, both await the database; each then has a Resource object of its own with that id,
-- and two Session objects without a resource lock one each: the resource is held twice.
pub held_twice :
    (t t' id a b : ℕ) (owner : User) (srv : Server)
    → lookup id srv.resource_id_to_resource ≡ none
    → a ≢ b
    → (srv.sessions a).resource_id ≡ none
    → (srv.sessions b).resource_id ≡ none
    → let path : ResourcePath = record { rtype = quote; rid = some id } in
      let (first, srv₁) = finish_load t id (some owner) srv in
      let (second, srv₂) = finish_load t' id (some owner) srv₁ in
      let r = srv.next_object in
      let r' = suc srv.next_object in
      let srv₃ = (lock r a srv₂).1 in
      let srv₄ = (lock r' b srv₃).1 in
      (begin_load path srv ≡ (returns (awaits id), srv))
      × (first ≡ returns r)
      × (second ≡ returns r')
      × (lookup id srv₂.resource_id_to_resource ≡ some r')
      × ((srv₄.resources r).id ≡ id)
      × ((srv₄.resources r').id ≡ id)
      × ((srv₄.resources r).session ≡ some a)
      × ((srv₄.resources r').session ≡ some b)
unfolding begin_load finish_load make_resource lock
held_twice t t' id a b owner srv absent ne fa fb = ground (
  arith,
  lookup-insert id id srv.next_object srv.resource_id_to_resource,
  lookup-insert id id (suc srv.next_object) (insert id srv.next_object srv.resource_id_to_resource),
)
