-- ===== src/Base/Outcome.antt =====
-- How a run of C code ends.
use mathlib.Core.Path.{◌≡◌, refl}
use mathlib.Core.Option.{Option, none, some}

-- A returned value; an access that C leaves undefined (outside an array, through a null or stale
-- pointer); a failed `assert`; or the end of the fuel that the model gives to a loop.
pub data Run {ℓ} (A : Type ℓ) : Type ℓ where
  ok : A → Run A
  fault aborted out_of_fuel : Run A

infixl 5 ◌>>=◌
abbrev pub ◌>>=◌ {ℓ κ} : {A : Type ℓ} {B : Type κ} → Run A → (A → Run B) → Run B
ok a >>= f = f a
fault >>= f = fault
aborted >>= f = aborted
out_of_fuel >>= f = out_of_fuel

-- What a function returns beside its other results: 0 or -1.
pub data Status : Type 0 where
  success failure : Status

-- The run returns, with a value that satisfies `P`.
abbrev pub Returns {ℓ κ} : {A : Type ℓ} → (A → Type κ) → Run A → Type (ℓ ⊔ κ)
Returns {A} P r = (a : A) × (r ≡ ok a) × P a

abbrev pub from_option {ℓ} : {A : Type ℓ} → Option A → Run A
from_option none = fault
from_option (some a) = ok a

module _ {ℓ κ} {A : Type ℓ} {P : A → Type κ} where
  pub returns : {a : A} → P a → Returns P (ok a)
  returns {a} p = (a, refl, p)

  pub Returns-bind {ℓ' κ'} :
      {B : Type ℓ'} {Q : B → Type κ'} (r : Run A) (f : A → Run B)
      → Returns P r
      → ((a : A) → P a → Returns Q (f a))
      → Returns Q (r >>= f)
  Returns-bind r f (a, e, p) k = rw e (k a p)

  pub Returns-map {κ'} :
      {Q : A → Type κ'} (r : Run A) → Returns P r → ((a : A) → P a → Q a) → Returns Q r
  Returns-map r (a, e, p) k = (a, e, k a p)
