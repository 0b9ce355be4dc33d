-- ===== src/Access/Compare.antt =====
-- Comparing teams (Common/team.py, `highest_team_in` of Common/user.py): the comparisons raise for
-- teams of two companies and for `None`, and `highest_team_in` never meets either.
use cpy_q.Prelude.{
  ℕ, ◌≤◌, ◌≡◌, refl, ap, inl, inr, true, none, some, List, [], ◌∷◌, All, Occurs, arith, ltb, ◌==◌,
  Bool-cases,
}
use cpy_q.Prelude.Raises.{returns}
use cpy_q.Access.{Team, User, team_gt, teams_in, max_team, highest_team_in}

-- The team is of the company and no lower than each team of the list.
pub record IsHighest (c : ℕ) (teams : List Team) (best : Team) : Type 0 where
  pub same_company : best.company ≡ c
  pub member : Occurs best teams
  pub above : All (λ t. t.hierarchy_index ≤ best.hierarchy_index) teams

All-mono :
    (m n : ℕ) (teams : List Team)
    → m ≤ n
    → All (λ t. t.hierarchy_index ≤ m) teams
    → All (λ t. t.hierarchy_index ≤ n) teams
All-mono m n [] h a = tt
All-mono m n (t ∷ ts) h a = (omega arith, All-mono m n ts h a.1)

Occurs-skip : (x y z : Team) (zs : List Team) → Occurs x (y ∷ zs) → Occurs x (y ∷ z ∷ zs)
Occurs-skip x y z zs (inl e) = inl e
Occurs-skip x y z zs (inr there) = inr (inr there)

max_team-IsHighest :
    (c : ℕ) (best : Team) (teams : List Team)
    → best.company ≡ c
    → All (λ t. t.company ≡ c) teams
    → (m : Team) × (max_team (some best) teams ≡ returns (some m)) × IsHighest c (best ∷ teams) m
unfolding max_team team_gt
max_team-IsHighest c best [] e a =
    (best, refl, record { same_company = e; member = inl refl; above = (omega arith, tt) })
max_team-IsHighest c best (t ∷ ts) e a =
    elim (Bool-cases (ltb best.hierarchy_index t.hierarchy_index)) [
      | inl larger ↦
          let (m, found, h) = max_team-IsHighest c t ts a.0 a.1 in
          (
            m,
            ground arith,
            record {
              same_company = h.same_company;
              member = inr h.member;
              above = (ground arith, h.above);
            },
          )
      | inr smaller ↦
          let (m, found, h) = max_team-IsHighest c best ts e a.1 in
          (
            m,
            ground arith,
            record {
              same_company = h.same_company;
              member = Occurs-skip m best t ts h.member;
              above = (h.above.0, (ground arith, h.above.1));
            },
          )
    ]

teams_in-company : (c : ℕ) (teams : List Team) → All (λ t. t.company ≡ c) (teams_in c teams)
unfolding teams_in
teams_in-company c [] = tt
teams_in-company c (t ∷ ts) = ground (arith, teams_in-company c ts)

pub Occurs-teams_in :
    (c : ℕ) (u : Team) (teams : List Team)
    → Occurs u teams
    → u.company ≡ c
    → Occurs u (teams_in c teams)
unfolding teams_in
Occurs-teams_in c u [] here e = elim here [ ]
Occurs-teams_in c u (t ∷ ts) (inl same) e =
    let hit : (t.company == c) ≡ true = ground (arith, ap (λ x. x.company) same) in
    rw hit (inl same)
Occurs-teams_in c u (t ∷ ts) (inr there) e = elim (Bool-cases (t.company == c)) [
  | inl hit ↦ rw hit (inr (Occurs-teams_in c u ts there e))
  | inr miss ↦ rw miss (Occurs-teams_in c u ts there e)
]

Occurs-tail :
    (u t : Team) (xs ys : List Team)
    → Occurs u (t ∷ xs)
    → (Occurs u xs → Occurs u ys)
    → Occurs u (t ∷ ys)
Occurs-tail u t xs ys (inl e) f = inl e
Occurs-tail u t xs ys (inr there) f = inr (f there)

pub teams_in-Occurs :
    (c : ℕ) (u : Team) (teams : List Team) → Occurs u (teams_in c teams) → Occurs u teams
unfolding teams_in
teams_in-Occurs c u [] here = here
teams_in-Occurs c u (t ∷ ts) o = elim (Bool-cases (t.company == c)) [
  | inl hit ↦ Occurs-tail u t (teams_in c ts) ts (rw hit at o) (teams_in-Occurs c u ts)
  | inr miss ↦ inr (teams_in-Occurs c u ts (rw miss at o))
]

-- The team is no lower than any team of the user in the team's own company.
abbrev pub Above : Team → User → Type 0
Above team other =
    (u : Team)
    → Occurs u other.teams
    → u.company ≡ team.company
    → u.hierarchy_index ≤ team.hierarchy_index

-- The user has a team in the company.
abbrev pub BelongsTo : User → ℕ → Type 0
BelongsTo other c = (u : Team) × Occurs u other.teams × (u.company ≡ c)

IsHighest-of_teams :
    (c : ℕ) (u : Team) (teams : List Team)
    → Occurs u teams
    → All (λ t. t.company ≡ c) teams
    → (m : Team) × (max_team none teams ≡ returns (some m)) × IsHighest c teams m
unfolding max_team
IsHighest-of_teams c u [] here a = elim here [ ]
IsHighest-of_teams c u (t ∷ ts) o a = max_team-IsHighest c t ts a.0 a.1

-- In a company where the user has a team, `highest_team_in` finds one, and raises nothing.
pub highest_team_in-IsHighest :
    (other : User) (c : ℕ)
    → BelongsTo other c
    → (m : Team) × (highest_team_in other c ≡ returns (some m))
      × IsHighest c (teams_in c other.teams) m
unfolding highest_team_in
highest_team_in-IsHighest other c (u, o, e) =
    IsHighest-of_teams c u (teams_in c other.teams) (Occurs-teams_in c u other.teams o e)
      (teams_in-company c other.teams)
