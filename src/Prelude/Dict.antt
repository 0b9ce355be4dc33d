-- ===== src/Prelude/Dict.antt =====
-- A Python `dict` with keys that are only compared, in insertion order. The laws have `if` form.
use Prim.Native.Nat.{ℕ}
use mathlib.Core.Path.{◌≡◌}
use mathlib.Core.Bool.{Bool}
use mathlib.Core.Option.{Option, none, some}
use mathlib.Core.List.{List, [], ◌∷◌}
use native.Mathlib.Omega.{arith}
use cpy_q.Prelude.Compare.{◌==◌, if◌then◌else◌, is_some}

abbrev pub Dict {ℓ} : Type ℓ → Type ℓ
Dict Value = List (ℕ × Value)

module _ {ℓ} {Value : Type ℓ} where
  -- `d.get(key)`
  unfoldable pub lookup : ℕ → Dict Value → Option Value
  lookup key [] = none
  lookup key (entry ∷ rest) = if key == entry.0 then some entry.1 else lookup key rest

  -- `key in d`
  abbrev pub contains : ℕ → Dict Value → Bool
  contains key dict = is_some (lookup key dict)

  -- `d.pop(key, None)`, `del d[key]`
  unfoldable pub erase : ℕ → Dict Value → Dict Value
  erase key [] = []
  erase key (entry ∷ rest) =
      let later = erase key rest in if key == entry.0 then later else entry ∷ later

  pub lookup-erase :
      (asked key : ℕ) (dict : Dict Value)
      → lookup asked (erase key dict) ≡ (if asked == key then none else lookup asked dict)
  unfolding lookup erase
  lookup-erase asked key [] = ground arith
  lookup-erase asked key (entry ∷ rest) = ground (arith, lookup-erase asked key rest)

  -- `d[key] = value`
  unfoldable pub insert : ℕ → Value → Dict Value → Dict Value
  insert key value [] = (key, value) ∷ []
  insert key value (entry ∷ rest) =
      if key == entry.0 then (key, value) ∷ rest else entry ∷ insert key value rest

  pub lookup-insert :
      (asked key : ℕ) (value : Value) (dict : Dict Value)
      → lookup asked (insert key value dict)
        ≡ (if asked == key then some value else lookup asked dict)
  unfolding lookup insert
  lookup-insert asked key value [] = ground arith
  lookup-insert asked key value (entry ∷ rest) = ground (arith, lookup-insert asked key value rest)
