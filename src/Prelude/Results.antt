-- ===== src/Prelude/Results.antt =====
-- Go's `(value, error)` results, and runs that may panic.
use Prim.Native.String.{String}
use mathlib.Core.Path.{◌≡◌, refl}
use mathlib.Core.Logic.{◌⊎◌, inl, inr}

-- `message s` is an error made from a text alone, here or in code outside the repository;
-- `wrap s e` is `fmt.Errorf("s: %v", e)`.
pub data Error : Type 0 where
  message : String → Error
  wrap : String → Error → Error

pub data Result {ℓ} (A : Type ℓ) : Type ℓ where
  ok : A → Result A
  err : Error → Result A

-- A run ends by a return, or by a panic that nothing in the repository recovers.
pub data Run {ℓ} (A : Type ℓ) : Type ℓ where
  returns : A → Run A
  panics : Run A

infixl 5 ◌>>=◌
abbrev pub ◌>>=◌ {κ ℓ} : {S : Type κ} {T : Type ℓ} → Run S → (S → Run T) → Run T
panics >>= next = panics
returns value >>= next = next value

-- The run returns, and its value satisfies `P`.
abbrev pub Returns {κ ℓ} : {T : Type ℓ} → Run T → (T → Type κ) → Type (κ ⊔ ℓ)
Returns {T} run Post = (result : T) × (run ≡ returns result) × Post result

pub Result-cases {ℓ} :
    {A : Type ℓ} (r : Result A) → ((e : Error) × (r ≡ err e)) ⊎ ((a : A) × (r ≡ ok a))
Result-cases (ok a) = inr (a, refl)
Result-cases (err e) = inl (e, refl)
