-- ===== src/Resource/Copies.antt =====
-- `lock` and `unlock` of Server/Content/resource.py by two Session objects with one id, as
-- `Token.new` of Common/token.py makes them.
use cpy_q.Prelude.{ℕ, ◌≡◌, ◌≢◌, none, some, arith}
use cpy_q.Prelude.Raises.{returns, raises}
use cpy_q.Server.{Server}
use cpy_q.Resource.{session_bound, lock, unlock}

module _ (srv : Server) (a b : ℕ) (copies : a ≢ b)
    (same_id : (srv.sessions a).id ≡ (srv.sessions b).id) where
  -- Two Session objects with one id, both without a resource, acquire two different resources.
  pub copies_lock_two :
      (r r' : ℕ)
      → r ≢ r'
      → (srv.sessions a).resource_id ≡ none
      → (srv.sessions b).resource_id ≡ none
      → (srv.resources r).session ≡ none
      → (srv.resources r').session ≡ none
      → let (first, srv₁) = lock r a srv in
        let (second, srv₂) = lock r' b srv₁ in
        (first ≡ returns tt)
        × (second ≡ returns tt)
        × ((srv₂.resources r).session ≡ some a)
        × ((srv₂.resources r').session ≡ some b)
        × ((srv₂.sessions a).id ≡ (srv₂.sessions b).id)
  unfolding lock
  copies_lock_two r r' ne fa fb o o' = ground arith

  -- Where one of two Session objects with one id holds a resource, the other one can release it;
  -- the holder stays bound, and is refused every resource from then on.
  pub release_by_copy :
      (now r r' : ℕ)
      → (srv.sessions a).resource_id ≡ some (srv.resources r).id
      → (srv.resources r).session ≡ some a
      → let (released, srv₁) = unlock now r b srv in
        (released ≡ returns tt)
        × ((srv₁.resources r).session ≡ none)
        × ((srv₁.sessions a).resource_id ≡ some (srv.resources r).id)
        × (lock r' a srv₁ ≡ (raises session_bound, srv₁))
  unfolding lock unlock
  release_by_copy now r r' mine held = ground arith
