-- ===== src/Common/Calls.antt =====
-- How a C++ call can end: with a value, by an exception, by a failed `assert` (the build does not
-- define NDEBUG), or with undefined behaviour.
use mathlib.Core.Bool.{Bool, true, false}

-- `fault` is an access outside an object, for which C++ defines no behaviour. `unfinished` is no
-- end of a C++ call: a loop that never ends, or for which the fuel of the model was too little.
pub data Error : Type 0 where
  out_of_range length_error invalid_argument assertion fault unfinished : Error

pub data Outcome {ℓ} (A : Type ℓ) : Type ℓ where
  ok : A → Outcome A
  err : Error → Outcome A

infixl 5 ◌>>=◌ ◌>>◌
abbrev pub ◌>>=◌ {ℓ κ} : {A : Type ℓ} {B : Type κ} → Outcome A → (A → Outcome B) → Outcome B
ok a >>= f = f a
err e >>= f = err e

abbrev pub ◌>>◌ {ℓ} : {B : Type ℓ} → Outcome (Unit {0}) → Outcome B → Outcome B
m >> k = m >>= λ _. k

abbrev pub guard : Bool → Error → Outcome (Unit {0})
guard true e = ok tt
guard false e = err e
