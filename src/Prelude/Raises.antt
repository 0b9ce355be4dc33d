-- ===== src/Prelude/Raises.antt =====
-- A pure Python function that may raise: the value that it returns, or the exception.
use mathlib.Core.Path.{◌≡◌, refl}

pub data Raises (E A : Type 0) : Type 0 where
  returns : A → Raises E A
  raises : E → Raises E A

infixl 5 ◌>>=◌ ◌>>◌
abbrev pub ◌>>=◌ : {E A B : Type 0} → Raises E A → (A → Raises E B) → Raises E B
returns a >>= f = f a
raises e >>= f = raises e

abbrev pub ◌>>◌ : {E A B : Type 0} → Raises E A → Raises E B → Raises E B
m >> k = m >>= λ _. k

-- A chain returns when its first part and the rest do.
pub >>=_returns :
    {E A B : Type 0} (m : Raises E A) (f : A → Raises E B) (b : B)
    → (m >>= f) ≡ returns b
    → (a : A) × (m ≡ returns a) × (f a ≡ returns b)
>>=_returns (returns a) f b h = (a, refl, h)
>>=_returns (raises e) f b h = cc
