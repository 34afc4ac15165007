-- ===== src/Prelude/Outcome.antt =====
-- How a call of the C code ends: with a value, in undefined behaviour, or, in the model only,
-- because a loop's fuel ran out.
pub data Run {ℓ} (A : Type ℓ) : Type ℓ where
  ok : A → Run A
  fault : Run A
  out_of_fuel : Run A

infixl 5 ◌>>=◌
abbrev pub ◌>>=◌ {ℓ κ} : {A : Type ℓ} {B : Type κ} → Run A → (A → Run B) → Run B
ok a >>= f = f a
fault >>= f = fault
out_of_fuel >>= f = out_of_fuel

-- The call returns, and what it returns meets `P`.
abbrev pub Returns {ℓ} : {A : Type ℓ} → (A → Type 0) → Run A → Type 0
Returns P (ok a) = P a
Returns P fault = ⊥
Returns P out_of_fuel = ⊥

-- What follows a call that returns.
pub Returns-bind {ℓ κ} :
    {A : Type ℓ} {B : Type κ} (P : A → Type 0) (Q : B → Type 0) (m : Run A) (f : A → Run B)
    → Returns P m
    → ((a : A) → P a → Returns Q (f a))
    → Returns Q (m >>= f)
Returns-bind P Q (ok a) f h next = next a h
Returns-bind P Q fault f h next = absurd h
Returns-bind P Q out_of_fuel f h next = absurd h

pub Returns-map {ℓ} :
    {A : Type ℓ} (P Q : A → Type 0) (m : Run A) → ((a : A) → P a → Q a) → Returns P m → Returns Q m
Returns-map P Q (ok a) f h = f a h
Returns-map P Q fault f h = absurd h
Returns-map P Q out_of_fuel f h = absurd h
