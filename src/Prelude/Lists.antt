-- ===== src/Prelude/Lists.antt =====
-- Lists measured by native numbers, the Python builtins `any` and `in`, and predicates by recursion.
use Prim.Native.Nat.{ℕ, suc, ◌+◌}
use mathlib.Core.Path.{◌≡◌, refl, ap, sym, subst}
use mathlib.Core.Bool.{Bool, true, false, ◌||◌}
use mathlib.Core.List.{List, [], ◌∷◌, ◌++◌, map}
use mathlib.Core.Logic.{◌⊎◌, inl, inr}
use native.Mathlib.Omega.{arith}
use cpy_q.Prelude.Compare.{◌==◌, Bool-cases}

module _ {ℓ} {A : Type ℓ} where
  abbrev pub length : List A → ℕ
  length [] = 0
  length (x ∷ xs) = suc (length xs)

  -- `any(test(x) for x in xs)`
  abbrev pub any : (A → Bool) → List A → Bool
  any test [] = false
  any test (x ∷ xs) = test x || any test xs

  abbrev pub All {κ} : (A → Type κ) → List A → Type κ
  All P [] = Unit
  All P (x ∷ xs) = P x × All P xs

  pub length-append : (xs ys : List A) → length (xs ++ ys) ≡ length xs + length ys
  length-append [] ys = omega arith
  length-append (x ∷ xs) ys = omega (arith, length-append xs ys)

-- `x in xs` for values that are compared by a number
abbrev pub elem : ℕ → List ℕ → Bool
elem x [] = false
elem x (y ∷ ys) = (x == y) || elem x ys

module _ {A : Type 0} where
  -- The value is one of the list.
  abbrev pub Occurs : A → List A → Type 0
  Occurs x [] = ⊥
  Occurs x (y ∷ ys) = (x ≡ y) ⊎ Occurs x ys

  pub any-Occurs :
      (test : A → Bool) (xs : List A) → any test xs ≡ true → (x : A) × Occurs x xs × (test x ≡ true)
  any-Occurs test [] h = cc
  any-Occurs test (x ∷ xs) h = elim (Bool-cases (test x)) [
    | inl hit ↦ (x, inl refl, hit)
    | inr miss ↦
        let (y, there, hit) = any-Occurs test xs (ground (arith, miss)) in (y, inr there, hit)
  ]

  pub Occurs-any :
      (test : A → Bool) (x : A) (xs : List A) → Occurs x xs → test x ≡ true → any test xs ≡ true
  Occurs-any test x [] here h = elim here [ ]
  Occurs-any test x (y ∷ ys) (inl e) h = ground (arith, ap test e)
  Occurs-any test x (y ∷ ys) (inr there) h = ground (arith, Occurs-any test x ys there h)

  -- A membership test by a number that each value carries.
  pub elem-Occurs :
      (f : A → ℕ) (n : ℕ) (xs : List A)
      → elem n (map f xs) ≡ true
      → (x : A) × Occurs x xs × (f x ≡ n)
  elem-Occurs f n [] h = cc
  elem-Occurs f n (x ∷ xs) h = elim (Bool-cases (n == f x)) [
    | inl hit ↦ (x, inl refl, ground arith)
    | inr miss ↦ let (y, there, e) = elem-Occurs f n xs (ground (arith, miss)) in (y, inr there, e)
  ]

  pub Occurs-elem : (f : A → ℕ) (x : A) (xs : List A) → Occurs x xs → elem (f x) (map f xs) ≡ true
  Occurs-elem f x [] here = elim here [ ]
  Occurs-elem f x (y ∷ ys) (inl e) = ground (arith, ap f e)
  Occurs-elem f x (y ∷ ys) (inr there) = ground (arith, Occurs-elem f x ys there)

pub All-Occurs : {A : Type 0} (P : A → Type 0) (x : A) (xs : List A) → All P xs → Occurs x xs → P x
All-Occurs P x [] a here = elim here [ ]
All-Occurs P x (y ∷ ys) a (inl e) = subst P (sym e) a.0
All-Occurs P x (y ∷ ys) a (inr there) = All-Occurs P x ys a.1 there
