-- ===== src/Access/Decision.antt =====
-- `SelfUser.has_permission_from` (Common/user.py) against a description of who is allowed.
use cpy_q.Prelude.{
  ℕ, ◌≤◌, ◌≡◌, refl, ap, subst, ◌∙◌, ◌↔◌, ◌⊎◌, inl, inr, Bool, true, false, ◌&&◌, ◌||◌, some, List,
  [], ◌∷◌, map, any, elem, Occurs, any-Occurs, Occurs-any, elem-Occurs, Occurs-elem, All,
  All-Occurs, arith, ◌==◌, ==_iff, Bool-cases, leb, if◌then◌else◌,
}
use cpy_q.Prelude.Raises.{Raises, returns}
use cpy_q.Access.{
  PermissionType, safe, company, universal, new_permission, Team, User, CompareError, team_ge,
  has_permission, companies, teams_in, intersection, is_empty, safe_test, has_permission_from,
}
use cpy_q.Access.Compare.{
  IsHighest, Above, BelongsTo, highest_team_in-IsHighest, Occurs-teams_in, teams_in-Occurs,
}
use cpy_q.Access.Grants.{Covers, IsFresh, has_permission_iff, Decides, Some, any_raises-Decides}

-- Who may do something of the given type to what another user owns.
pub data Allowed (self : User) (type : PermissionType) (other : User) : Type 0 where
  by_admin : self.admin ≡ true → Allowed self type other
  by_identity : self.id ≡ other.id → Allowed self type other
  everywhere : Some (λ t. Covers t type universal) self.teams → Allowed self type other
  in_company :
      Some (λ t. BelongsTo other t.company × Covers t type company) self.teams
      → Allowed self type other
  from_above :
      Some (λ t. BelongsTo other t.company × Above t other × Covers t type safe) self.teams
      → Allowed self type other

elem-intersection :
    (c : ℕ) (xs ys : List ℕ) → elem c (intersection xs ys) ≡ (elem c xs && elem c ys)
unfolding intersection
elem-intersection c [] ys = refl
elem-intersection c (x ∷ xs) ys = elim (Bool-cases (c == x)) [
  | inl hit ↦
      let same : elem c ys ≡ elem x ys = ap (λ z. elem z ys) ((==_iff c x).0 hit) in
      ground (arith, elem-intersection c xs ys, same, hit)
  | inr miss ↦ ground (arith, elem-intersection c xs ys, miss)
]

intersection-elem :
    (c : ℕ) (xs ys : List ℕ) → elem c xs ≡ true → elem c (intersection xs ys) ≡ elem c ys
intersection-elem c xs ys h = rw (elem-intersection c xs ys, h)

shared-BelongsTo :
    (self other : User) (t : Team)
    → Occurs t self.teams
    → elem t.company (intersection (companies self) (companies other)) ≡ true
    → BelongsTo other t.company
unfolding companies
shared-BelongsTo self other t o h =
    elem-Occurs (λ u. u.company) t.company other.teams
      (rw (intersection-elem t.company _ _ (Occurs-elem (λ u. u.company) t self.teams o)) at h)

BelongsTo-shared :
    (self other : User) (t : Team)
    → Occurs t self.teams
    → BelongsTo other t.company
    → elem t.company (intersection (companies self) (companies other)) ≡ true
unfolding companies
BelongsTo-shared self other t o (u, o', e) =
    intersection-elem t.company _ _ (Occurs-elem (λ u. u.company) t self.teams o)
    ∙ subst (λ c. elem c (map (λ u. u.company) other.teams) ≡ true) e
        (Occurs-elem (λ u. u.company) u other.teams o')

leb-Above :
    (t m : Team) (other : User)
    → IsHighest t.company (teams_in t.company other.teams) m
    → (leb m.hierarchy_index t.hierarchy_index ≡ true) ↔ Above t other
leb-Above t m other h = (to, from)
  where
    to : leb m.hierarchy_index t.hierarchy_index ≡ true → Above t other
    to le u o e =
        let low =
          All-Occurs (λ w. w.hierarchy_index ≤ m.hierarchy_index) u _ h.above
            (Occurs-teams_in t.company u other.teams o e) in
        ground arith

    from : Above t other → leb m.hierarchy_index t.hierarchy_index ≡ true
    from above =
        let low = above m (teams_in-Occurs t.company m other.teams h.member) h.same_company in
        ground arith

and-Decides :
    (a b : Bool) {P Q : Type 0} → (a ≡ true) ↔ P → (b ≡ true) ↔ Q → ((a && b) ≡ true) ↔ (P × Q)
and-Decides true b p q = ((λ h. (p.0 refl, q.0 h)), λ r. q.1 r.1)
and-Decides false b p q = ((λ h. cc), λ r. p.1 r.0)

team_ge_lem :
    (t m : Team)
    → m.company ≡ t.company
    → team_ge t (some m) ≡ returns (leb m.hierarchy_index t.hierarchy_index)
unfolding team_ge
team_ge_lem t m e = ground arith

-- The last test raises nothing, and decides the last way to be allowed.
safe_test-Decides :
    (object : ℕ) (self other : User) (type : PermissionType) (t : Team)
    → Occurs t self.teams
    → IsFresh object t
    → Decides
        (safe_test other
          (intersection (companies self) (companies other))
          (new_permission object type safe)
          t)
        (BelongsTo other t.company × Above t other × Covers t type safe)
unfolding safe_test
safe_test-Decides object self other type t o fresh =
    elim (Bool-cases (elem t.company (intersection (companies self) (companies other)))) [
      | inr apart ↦ (
        false,
        rw (apart, safe_test),
        ((λ h. cc), λ r. cc (apart, BelongsTo-shared self other t o r.0)),
      )
      | inl shared ↦
          let belongs = shared-BelongsTo self other t o shared in
          let (m, found, highest) = highest_team_in-IsHighest other t.company belongs in
          let test =
            and-Decides (leb m.hierarchy_index t.hierarchy_index)
              (has_permission t (new_permission object type safe)) (leb-Above t m other highest)
              (has_permission_iff object t type safe fresh) in
          (
            leb m.hierarchy_index t.hierarchy_index
                && has_permission t (new_permission object type safe),
            rw (shared, safe_test, found, team_ge_lem t m highest.same_company),
            ((λ h. let r = test.0 h in (belongs, r.0, r.1)), λ r. test.1 (r.1, r.2)),
          )
    ]

module _ (type : PermissionType) (self other : User) where
  self_test_iff :
      ((self.admin || self.id == other.id) ≡ true) ↔ ((self.admin ≡ true) ⊎ (self.id ≡ other.id))
  self_test_iff = (to, from)
    where
      to : (self.admin || self.id == other.id) ≡ true → (self.admin ≡ true) ⊎ (self.id ≡ other.id)
      to h = ground arith

      from : (self.admin ≡ true) ⊎ (self.id ≡ other.id) → (self.admin || self.id == other.id) ≡ true
      from h = ground arith

  any-Some :
      (test : Team → Bool) (Q : Team → Type 0) (teams : List Team)
      → ((t : Team) → Occurs t teams → (test t ≡ true) ↔ Q t)
      → (any test teams ≡ true) ↔ Some Q teams
  any-Some test Q teams each = (
    (λ h. let (t, o, e) = any-Occurs test teams h in (t, o, (each t o).0 e)),
    λ s. Occurs-any test s.0 teams s.1 ((each s.0 s.1).1 s.2),
  )

  universal_test_iff :
      (object : ℕ)
      → All (IsFresh object) self.teams
      → (any (λ t. has_permission t (new_permission object type universal)) self.teams ≡ true)
        ↔ Some (λ t. Covers t type universal) self.teams
  universal_test_iff object fresh = any-Some _ _ self.teams λ t o.
      has_permission_iff object t type universal (All-Occurs (IsFresh object) t self.teams fresh o)

  company_test_iff :
      (object : ℕ)
      → All (IsFresh object) self.teams
      → (any
            (λ t.
              elem t.company (intersection (companies self) (companies other))
              && has_permission t (new_permission object type company))
            self.teams
          ≡ true)
        ↔ Some (λ t. BelongsTo other t.company × Covers t type company) self.teams
  company_test_iff object fresh = any-Some _ _ self.teams λ t o.
      and-Decides _ _ (shared-BelongsTo self other t o, BelongsTo-shared self other t o)
        (has_permission_iff object t type company
          (All-Occurs (IsFresh object) t self.teams fresh o))

  not-empty :
      (t : Team)
      → Occurs t self.teams
      → BelongsTo other t.company
      → is_empty (intersection (companies self) (companies other)) ≡ true
      → ⊥
  not-empty t o b e =
      go (intersection (companies self) (companies other)) (BelongsTo-shared self other t o b) e
    where
      go : (xs : List ℕ) → elem t.company xs ≡ true → is_empty xs ≡ true → ⊥
      go [] h e = cc
      go (x ∷ xs) h e = cc

-- A ladder of tests that return, a test that gives up, and a last call that may raise.
ladder :
    (a b stop c : Bool) (last : Raises CompareError Bool) {P Q R S : Type 0}
    → (a ≡ true) ↔ P
    → (b ≡ true) ↔ Q
    → (stop ≡ true → R → ⊥)
    → (stop ≡ true → S → ⊥)
    → (c ≡ true) ↔ R
    → Decides last S
    → Decides
        (if a
          then returns true
          else if b
          then returns true
          else if stop
          then returns false
          else if c
          then returns true
          else last)
        (P ⊎ (Q ⊎ (R ⊎ S)))
ladder true b stop c last p q nr ns r s = (true, refl, ((λ _. inl (p.0 refl)), λ _. refl))
ladder false true stop c last p q nr ns r s = (true, refl, ((λ _. inr (inl (q.0 refl))), λ _. refl))
ladder false false true c last {P} {Q} {R} {S} p q nr ns r s =
    (false, refl, ((λ h. cc), λ s'. none_holds s'))
  where
    none_holds : (P ⊎ (Q ⊎ (R ⊎ S))) → false ≡ true
    none_holds (inl h) = p.1 h
    none_holds (inr (inl h)) = q.1 h
    none_holds (inr (inr (inl h))) = absurd (nr refl h)
    none_holds (inr (inr (inr h))) = absurd (ns refl h)
ladder false false false true last p q nr ns r s =
    (true, refl, ((λ _. inr (inr (inl (r.0 refl)))), λ _. refl))
ladder false false false false last {P} {Q} {R} {S} p q nr ns r (b, e, d) =
    (b, e, ((λ h. inr (inr (inr (d.0 h)))), λ s'. last_holds s'))
  where
    last_holds : (P ⊎ (Q ⊎ (R ⊎ S))) → b ≡ true
    last_holds (inl h) = cc (p.1 h)
    last_holds (inr (inl h)) = cc (q.1 h)
    last_holds (inr (inr (inl h))) = cc (r.1 h)
    last_holds (inr (inr (inr h))) = d.1 h

-- The check raises nothing, and permits exactly what the description allows, where the identities
-- of the three permissions that it makes are new.
pub has_permission_from-Allowed :
    (o₁ o₂ o₃ : ℕ) (self : User) (type : PermissionType) (other : User)
    → All (IsFresh o₁) self.teams
    → All (IsFresh o₂) self.teams
    → All (IsFresh o₃) self.teams
    → Decides (has_permission_from o₁ o₂ o₃ self type other) (Allowed self type other)
unfolding has_permission_from
has_permission_from-Allowed o₁ o₂ o₃ self type other f₁ f₂ f₃ =
    let (b, e, d) =
      ladder _ _ _ _ _ (self_test_iff type self other) (universal_test_iff type self other o₁ f₁)
        (λ stop s. not-empty type self other s.0 s.1 s.2.0 stop)
        (λ stop s. not-empty type self other s.0 s.1 s.2.0 stop)
        (company_test_iff type self other o₂ f₂)
        (any_raises-Decides _ _ self.teams λ t o.
          safe_test-Decides o₃ self other type t o (All-Occurs (IsFresh o₃) t self.teams f₃ o)) in
    (b, e, ((λ h. of_sum (d.0 h)), λ a. d.1 (to_sum a)))
  where
    Ways : Type 0
    Ways =
        ((self.admin ≡ true) ⊎ (self.id ≡ other.id))
        ⊎ (Some (λ t. Covers t type universal) self.teams
            ⊎ (Some (λ t. BelongsTo other t.company × Covers t type company) self.teams
                ⊎ Some (λ t. BelongsTo other t.company × Above t other × Covers t type safe)
                    self.teams))

    of_sum : Ways → Allowed self type other
    of_sum (inl (inl h)) = by_admin h
    of_sum (inl (inr h)) = by_identity h
    of_sum (inr (inl h)) = everywhere h
    of_sum (inr (inr (inl h))) = in_company h
    of_sum (inr (inr (inr h))) = from_above h

    to_sum : Allowed self type other → Ways
    to_sum (by_admin h) = inl (inl h)
    to_sum (by_identity h) = inl (inr h)
    to_sum (everywhere h) = inr (inl h)
    to_sum (in_company h) = inr (inr (inl h))
    to_sum (from_above h) = inr (inr (inr h))
