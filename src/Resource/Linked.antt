-- ===== src/Resource/Linked.antt =====
-- That sessions and resources refer to each other one to one, through any sequence of `lock` and
-- `unlock` of Server/Content/resource.py on session objects with distinct ids.
use cpy_q.Prelude.{
  ℕ, ◌≡◌, refl, sym, ap, ◌∙◌, inl, inr, Bool, true, Option, none, some, List, [], ◌∷◌, All, arith,
  Bool-cases, ==_iff, ◌==◌,
}
use cpy_q.Server.{Server, set_resource, bind, unbind}
use cpy_q.Resource.{lock, is_acquired, unlock}

-- The code's own assumption: a session has acquired a resource exactly when the resource is locked
-- by it; and it is the only one. `live` are the session objects in use.
pub record Linked (live : ℕ → Bool) (srv : Server) : Type 0 where
  pub live_holder : (r s : ℕ) → (srv.resources r).session ≡ some s → live s ≡ true
  pub held :
      (r s : ℕ)
      → (srv.resources r).session ≡ some s
      → (srv.sessions s).resource_id ≡ some (srv.resources r).id
  pub holds :
      (s i : ℕ)
      → (srv.sessions s).resource_id ≡ some i
      → (r : ℕ) × ((srv.resources r).id ≡ i) × ((srv.resources r).session ≡ some s)
  pub unique :
      (r r' s : ℕ)
      → (srv.resources r).session ≡ some s
      → (srv.resources r').session ≡ some s
      → r ≡ r'
  pub distinct :
      (s s' : ℕ)
      → live s ≡ true
      → live s' ≡ true
      → (srv.sessions s).id ≡ (srv.sessions s').id
      → s ≡ s'

-- The two states that successful calls lead to.
abbrev acquired : ℕ → ℕ → Server → Server
acquired r s srv =
    set_resource r (record (srv.resources r) { session = some s }) (bind s (srv.resources r).id srv)

abbrev released : ℕ → ℕ → ℕ → Server → Server
released now r s srv =
    set_resource r (record (srv.resources r) { last_active = now; session = none }) (unbind s srv)

module _ (live : ℕ → Bool) (srv : Server) (v : Linked live srv) (r s : ℕ) (l : live s ≡ true) where
  acquired-Linked :
      (srv.sessions s).resource_id ≡ none
      → (srv.resources r).session ≡ none
      → Linked live (acquired r s srv)
  acquired-Linked free open_r = record {
    live_holder = λ r' s' h. ground (arith, v.live_holder r' s');
    held = λ r' s' h. ground (arith, v.held r' s', v.held r s, ap srv.sessions {x = s'} {y = s});
    holds = λ s' i h. elim (Bool-cases (s' == s)) [
      | inl hit ↦ (r, ground arith, ground arith)
      | inr miss ↦
          let (r', e, e') = v.holds s' i (ground (arith, miss)) in
          (
            r',
            ground (arith, ap srv.resources {x = r'} {y = r}),
            ground (arith, ap srv.resources {x = r'} {y = r}),
          )
    ];
    unique = λ r₁ r₂ s' h h'. ground (arith, v.unique r₁ r₂ s', v.held r₁ s', v.held r₂ s');
    distinct = λ s₁ s₂ l₁ l₂ e. v.distinct s₁ s₂ l₁ l₂ (ground arith);
  }

  released-Linked :
      (now : ℕ) → (srv.resources r).session ≡ some s → Linked live (released now r s srv)
  released-Linked now mine = record {
    live_holder = λ r' s' h. ground (arith, v.live_holder r' s');
    held = λ r' s' h. ground (arith, v.held r' s', v.unique r r' s', v.held r s);
    holds =
        λ s' i h. let (r', e, e') = v.holds s' i (ground arith) in (r', ground arith, ground arith);
    unique = λ r₁ r₂ s' h h'. ground (arith, v.unique r₁ r₂ s');
    distinct = λ s₁ s₂ l₁ l₂ e. v.distinct s₁ s₂ l₁ l₂ (ground arith);
  }

-- The calls of the two methods, each with its resource and its session.
pub data Call : Type 0 where
  locks : ℕ → ℕ → Call
  unlocks : ℕ → ℕ → ℕ → Call

abbrev pub session_of : Call → ℕ
session_of (locks r s) = s
session_of (unlocks now r s) = s

-- The state afterwards, whether the call returns or raises.
unfoldable pub call : Call → Server → Server
unfolding lock unlock
call (locks r s) srv = (lock r s srv).1
call (unlocks now r s) srv = (unlock now r s srv).1

unfoldable pub run : List Call → Server → Server
run [] srv = srv
run (c ∷ cs) srv = run cs (call c srv)

unlock-Linked :
    (live : ℕ → Bool) (srv : Server) (now r s : ℕ) (o : Option ℕ)
    → (srv.resources r).session ≡ o
    → Linked live srv
    → live s ≡ true
    → Linked live (unlock now r s srv).1
unfolding unlock
unlock-Linked live srv now r s none e v l = rw (e, is_acquired) v
unlock-Linked live srv now r s (some h) e v l =
    elim (Bool-cases ((srv.sessions s).id == (srv.sessions h).id)) [
      | inl same ↦
          let mine = v.distinct s h l (v.live_holder r h e) ((==_iff _ _).0 same) in
          rw (e, is_acquired, same) (released-Linked live srv v r s l now (e ∙ ap some (sym mine)))
      | inr other ↦ rw (e, is_acquired, other) v
    ]

lock-Linked :
    (live : ℕ → Bool) (srv : Server) (r s : ℕ) (o h : Option ℕ)
    → (srv.sessions s).resource_id ≡ o
    → (srv.resources r).session ≡ h
    → Linked live srv
    → live s ≡ true
    → Linked live (lock r s srv).1
lock-Linked live srv r s (some i) h e f v l =
    let same : (lock r s srv).1 ≡ srv = unfold lock in ground arith in rw same v
lock-Linked live srv r s none (some h) e f v l =
    let same : (lock r s srv).1 ≡ srv = unfold lock in ground arith in rw same v
lock-Linked live srv r s none none e f v l =
    let next : (lock r s srv).1 ≡ acquired r s srv = unfold lock in ground arith in
    rw next (acquired-Linked live srv v r s l e f)

call-Linked :
    (live : ℕ → Bool) (c : Call) (srv : Server)
    → Linked live srv
    → live (session_of c) ≡ true
    → Linked live (call c srv)
unfolding call
call-Linked live (unlocks now r s) srv v l =
    unlock-Linked live srv now r s (srv.resources r).session refl v l
call-Linked live (locks r s) srv v l =
    lock-Linked live srv r s (srv.sessions s).resource_id (srv.resources r).session refl refl v l

-- From a state where sessions and resources refer to each other one to one, any sequence of `lock`
-- and `unlock`, refused calls included, by sessions in use keeps that so: each session holds one
-- resource at most, each resource is held by one session at most, and both agree on it. That no
-- two session objects in use share an id is part of the state that is started from.
pub run-Linked :
    (live : ℕ → Bool) (cs : List Call) (srv : Server)
    → Linked live srv
    → All (λ c. live (session_of c) ≡ true) cs
    → Linked live (run cs srv)
unfolding run
run-Linked live [] srv v l = v
run-Linked live (c ∷ cs) srv v l =
    run-Linked live cs (call c srv) (call-Linked live c srv v l.0) l.1
