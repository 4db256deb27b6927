-- ===== src/Prelude/Run.antt =====
-- How a C function ends: with a value, with an access outside an array, or with the fuel of the
-- model used up. A theorem about `Returns` excludes the last two.
use mathlib.Core.Path.{◌≡◌, refl}
use mathlib.Core.Bool.{Bool, true, false}
use sysprogramming_examples.Prelude.Tests.{if◌then◌else◌}

pub data Run {ℓ} (Value : Type ℓ) : Type ℓ where
  ok : Value → Run Value
  fault no_fuel : Run Value

module _ {ℓ ℓ'} {Value : Type ℓ} {Result : Type ℓ'} where
  infixl 5 ◌>>=◌
  abbrev pub ◌>>=◌ : Run Value → (Value → Run Result) → Run Result
  fault >>= rest = fault
  no_fuel >>= rest = no_fuel
  ok value >>= rest = rest value

-- The function returns a value of which `Post` holds.
pub data Returns {ℓ κ} {Value : Type ℓ} (Post : Value → Type κ) : Run Value → Type (ℓ ⊔ κ) where
  returns : {value : Value} → Post value → Returns Post (ok value)

module _ {ℓ κ} {Value : Type ℓ} {Post : Value → Type κ} where
  pub Returns-then {ℓ' κ'} :
      {Result : Type ℓ'} {After : Result → Type κ'} {call : Run Value} {rest : Value → Run Result}
      → Returns Post call
      → ((value : Value) → Post value → Returns After (rest value))
      → Returns After (call >>= rest)
  Returns-then (returns p) k = k _ p

  pub Returns-weaken {κ'} :
      {Weaker : Value → Type κ'} {call : Run Value}
      → ((value : Value) → Post value → Weaker value)
      → Returns Post call
      → Returns Weaker call
  Returns-weaken k (returns p) = returns (k _ p)

  pub Returns-branch :
      {yes_call no_call : Run Value} (test : Bool)
      → (test ≡ true → Returns Post yes_call)
      → (test ≡ false → Returns Post no_call)
      → Returns Post (if test then yes_call else no_call)
  Returns-branch false p q = q refl
  Returns-branch true p q = p refl

  -- What is returned, as a value with an equation.
  pub Returns-value :
      {call : Run Value} → Returns Post call → (value : Value) × (call ≡ ok value) × Post value
  Returns-value (returns p) = (_, refl, p)

  pub Returns-ok : {value : Value} → Returns Post (ok value) → Post value
  Returns-ok (returns p) = p
