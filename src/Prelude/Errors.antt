-- ===== src/Prelude/Errors.antt =====
-- Go's `(value, error)` pairs, where a call that fails returns the zero value: `ok` or `err`.
use Prim.Native.String.{String}
use mathlib.Core.Path.{◌≡◌, refl}
use mathlib.Core.Logic.{◌⊎◌, inl, inr}

-- The reasons of an API status that the program tells apart.
pub data StatusReason : Type 0 where
  not_found too_many_requests other_reason : StatusReason

-- An error: a status of the API server with its message, or one wrapped by `fmt.Errorf`.
pub data Error : Type 0 where
  api_status : StatusReason → String → Error
  wrapped : String → Error → Error

pub data Result {ℓ} (A : Type ℓ) : Type ℓ where
  ok : A → Result A
  err : Error → Result A

pub Result-cases {ℓ} :
    {A : Type ℓ} (r : Result A) → ((a : A) × (r ≡ ok a)) ⊎ ((e : Error) × (r ≡ err e))
Result-cases (ok a) = inl (a, refl)
Result-cases (err e) = inr (e, refl)
