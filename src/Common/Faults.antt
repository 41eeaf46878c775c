-- ===== src/Common/Faults.antt =====
-- Code that may stop at a failed `assert`, or do what C leaves undefined.

pub data Fault : Type 0 where
  -- `assert(false)`, with assertions compiled in
  assertion : Fault
  -- a `memcpy` past the end of its destination
  out_of_bounds : Fault
  -- a NULL pointer, used
  null_pointer : Fault

pub data Outcome {ℓ} (A : Type ℓ) : Type ℓ where
  done : A → Outcome A
  fault : Fault → Outcome A

infixl 5 ◌>>=◌ ◌>>◌
abbrev pub ◌>>=◌ {ℓ κ} : {A : Type ℓ} {B : Type κ} → Outcome A → (A → Outcome B) → Outcome B
done a >>= f = f a
fault e >>= f = fault e

abbrev pub ◌>>◌ {ℓ} : {B : Type ℓ} → Outcome (Unit {0}) → Outcome B → Outcome B
m >> k = m >>= λ _. k
