-- ===== src/Ratelimit/Window.antt =====
-- Sequences of `check_ratelimit` calls (Common/utils.py) on one list of hits.
use cpy_q.Prelude.{
  ℕ, suc, ◌+◌, ◌≤◌, ◌<◌, ◌≡◌, refl, ◌⊎◌, ◌∙◌, inl, inr, Bool-cases, ◌&&◌, List, [], ◌∷◌, ◌++◌,
  arith, length, ltb, leb, if◌then◌else◌,
}
use cpy_q.Ratelimit.{Outcome, passed, exceeded, recent, check_ratelimit}

-- The times of the calls that passed, beside the list that the calls share.
pub record Trace : Type 0 where
  pub log : List ℕ
  pub hits : List ℕ

abbrev pub start : Trace
start = record { log = []; hits = [] }

abbrev pub after : ℕ → Outcome × List ℕ → Trace → Trace
after t (passed, hits) tr = record { log = tr.log ++ t ∷ []; hits = hits }
after t (exceeded, hits) tr = record { log = tr.log; hits = hits }

unfoldable pub calls : ℕ → ℕ → List ℕ → Trace → Trace
calls limit interval [] tr = tr
calls limit interval (t ∷ ts) tr =
    calls limit interval ts (after t (check_ratelimit t tr.hits limit interval) tr)

-- How many of the times lie in the window `(w, w + interval]`.
unfoldable pub within : ℕ → ℕ → List ℕ → ℕ
within w interval [] = 0
within w interval (x ∷ xs) =
    let rest = within w interval xs in if ltb w x && leb x (w + interval) then suc rest else rest

-- The clock does not run backwards.
abbrev pub IsOrdered : ℕ → List ℕ → Type 0
IsOrdered last [] = Unit {0}
IsOrdered last (t ∷ ts) = (last ≤ t) × IsOrdered t ts

recent-append :
    (t interval : ℕ) (xs ys : List ℕ)
    → recent t interval (xs ++ ys) ≡ recent t interval xs ++ recent t interval ys
unfolding recent
recent-append t interval [] ys = refl
recent-append t interval (x ∷ xs) ys = ground (arith, recent-append t interval xs ys)

recent-recent :
    (t t' interval : ℕ) (xs : List ℕ)
    → t ≤ t'
    → recent t' interval (recent t interval xs) ≡ recent t' interval xs
unfolding recent
recent-recent t t' interval [] h = refl
recent-recent t t' interval (x ∷ xs) h = ground (arith, recent-recent t t' interval xs h)

within-append :
    (w interval : ℕ) (xs ys : List ℕ)
    → within w interval (xs ++ ys) ≡ within w interval xs + within w interval ys
unfolding within
within-append w interval [] ys = omega arith
within-append w interval (x ∷ xs) ys = ground (arith, within-append w interval xs ys)

within-le-recent :
    (w t interval : ℕ) (xs : List ℕ)
    → t ≤ w + interval
    → within w interval xs ≤ length (recent t interval xs)
unfolding within recent
within-le-recent w t interval [] h = omega arith
within-le-recent w t interval (x ∷ xs) h = ground (arith, within-le-recent w t interval xs h)

record Inv (limit interval last : ℕ) (tr : Trace) : Type 0 where
  agree : (t : ℕ) → last ≤ t → recent t interval tr.hits ≡ recent t interval tr.log
  bounded : (w : ℕ) → within w interval tr.log ≤ limit

module _ (limit interval : ℕ) where
  start-Inv : Inv limit interval 0 start
  unfolding within
  start-Inv = record { agree = λ t h. refl; bounded = λ w. omega arith }

  refused-Inv :
      (last t : ℕ) (tr : Trace)
      → Inv limit interval last tr
      → last ≤ t
      → Inv limit interval t (record { log = tr.log; hits = recent t interval tr.hits })
  refused-Inv last t tr v h = record {
    agree = λ t' h'. recent-recent t t' interval tr.hits h' ∙ v.agree t' (omega arith);
    bounded = v.bounded;
  }

  bounded-append :
      (last t : ℕ) (tr : Trace)
      → Inv limit interval last tr
      → last ≤ t
      → length (recent t interval tr.hits) < limit
      → (w : ℕ) → within w interval (tr.log ++ t ∷ []) ≤ limit
  unfolding within
  bounded-append last t tr v h few w = elim (Bool-cases (leb t (w + interval))) [
    | inl inside ↦ ground (
      arith,
      within-append w interval tr.log (t ∷ []),
      within-le-recent w t interval tr.log (ground arith),
      v.agree t h,
    )
    | inr outside ↦ ground (arith, within-append w interval tr.log (t ∷ []), v.bounded w)
  ]

  accepted-Inv :
      (last t : ℕ) (tr : Trace)
      → Inv limit interval last tr
      → last ≤ t
      → length (recent t interval tr.hits) < limit
      → Inv limit interval t
          (record { log = tr.log ++ t ∷ []; hits = recent t interval tr.hits ++ t ∷ [] })
  accepted-Inv last t tr v h few = record {
    agree = λ t' h'. rw (
      recent-append,
      recent-append,
      recent-recent t t' interval tr.hits h',
      v.agree t' (omega arith),
    );
    bounded = bounded-append last t tr v h few;
  }

  check-Inv :
      (last t : ℕ) (tr : Trace)
      → Inv limit interval last tr
      → last ≤ t
      → Inv limit interval t (after t (check_ratelimit t tr.hits limit interval) tr)
  unfolding check_ratelimit
  check-Inv last t tr v h = elim (Bool-cases (leb limit (length (recent t interval tr.hits)))) [
    | inl full ↦ rw (full, check_ratelimit) (refused-Inv last t tr v h)
    | inr room ↦ rw (room, check_ratelimit) (accepted-Inv last t tr v h (ground arith))
  ]

  calls-bounded :
      (last : ℕ) (ts : List ℕ) (tr : Trace)
      → Inv limit interval last tr
      → IsOrdered last ts
      → (w : ℕ) → within w interval (calls limit interval ts tr).log ≤ limit
  unfolding calls
  calls-bounded last [] tr v ordered = v.bounded
  calls-bounded last (t ∷ ts) tr v ordered =
      calls-bounded t ts _ (check-Inv last t tr v ordered.0) ordered.1

-- Of any sequence of calls on one list of hits that starts empty, at times that do not run
-- backwards, no window of one interval ever has more than `limit` calls that passed.
pub calls-within-le :
    (limit interval : ℕ) (ts : List ℕ)
    → IsOrdered 0 ts
    → (w : ℕ) → within w interval (calls limit interval ts start).log ≤ limit
calls-within-le limit interval ts ordered =
    calls-bounded limit interval 0 ts start (start-Inv limit interval) ordered

-- A call passes exactly when fewer than `limit` hits are younger than the
-- interval; then and only then it adds its own time to the hits that are still young.
pub check_ratelimit_outcome :
    (t limit interval : ℕ) (hits : List ℕ)
    → ((check_ratelimit t hits limit interval ≡ (passed, recent t interval hits ++ t ∷ []))
        × (length (recent t interval hits) < limit))
      ⊎ ((check_ratelimit t hits limit interval ≡ (exceeded, recent t interval hits))
          × (limit ≤ length (recent t interval hits)))
unfolding check_ratelimit
check_ratelimit_outcome t limit interval hits = ground arith
