-- ===== src/Result.antt =====
-- How a C++ call ends: with a value, with an exception, or in undefined behaviour (an access
-- outside an object, a read of an uninitialised variable, a remainder by zero).
pub mod Exceptions
use mathlib.Core.Path.{◌≡◌, sym, subst, ◌∙◌}
use hit_database_exp3p2_cpp.Base.{Bool, true, false}
use Exceptions.{Exception}

pub data Result {ℓ} (A : Type ℓ) : Type ℓ where
  ok : A → Result A
  throws : Exception → Result A
  undefined : Result A

infixl 5 ◌>>=◌
abbrev pub ◌>>=◌ {ℓ κ} : {A : Type ℓ} {B : Type κ} → Result A → (A → Result B) → Result B
ok a >>= f = f a
throws e >>= f = throws e
undefined >>= f = undefined

infixl 5 ◌>>◌
abbrev pub ◌>>◌ {ℓ} : {B : Type ℓ} → Result (Unit {0}) → Result B → Result B
m >> k = m >>= λ _. k

-- `if (!holds) throw e;`
abbrev pub require : Bool → Exception → Result (Unit {0})
require true e = ok tt
require false e = throws e

-- What the language demands of an operation, as the bounds of an access.
abbrev pub demand : Bool → Result (Unit {0})
demand true = ok tt
demand false = undefined

-- The call ends normally, in a value with the property.
abbrev pub Returns {ℓ κ} : {A : Type ℓ} → Result A → (A → Type κ) → Type (ℓ ⊔ κ)
Returns {A} r P = (a : A) × (r ≡ ok a) × P a

pub ok-injective {ℓ} : {A : Type ℓ} {a b : A} → ok a ≡ ok b → a ≡ b
ok-injective e = cc

-- A property of what a call returns holds of the value that it is seen to return.
pub Returns-at {ℓ κ} :
    {A : Type ℓ} {r : Result A} {P : A → Type κ} (c : A) → r ≡ ok c → Returns r P → P c
Returns-at {P = P} c seen (a, e, h) = subst P (ok-injective (sym e ∙ seen)) h
