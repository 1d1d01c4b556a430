-- ===== src/Core/Result.antt =====
-- Exceptions as values: a function that may raise returns a `Result`.
use mathlib.Core.Logic.{◌⊎◌, inl, inr}
use mathlib.Core.Path.{◌≡◌, refl}
use Prim.Native.String.{String}

pub data Result {ℓ κ} (E : Type ℓ) (A : Type κ) : Type (ℓ ⊔ κ) where
  ok : A → Result E A
  err : E → Result E A

infixl 5 ◌>>=◌ ◌>>◌
abbrev pub ◌>>=◌ {ℓ κ ι} :
    {A : Type κ} {B : Type ι} {E : Type ℓ} → Result E A → (A → Result E B) → Result E B
err raised >>= next = err raised
ok value >>= next = next value

abbrev pub ◌>>◌ {ℓ ι} : {B : Type ι} {E : Type ℓ} → Result E (Unit {0}) → Result E B → Result E B
first >> next = first >>= λ done. next

-- What the retrieval pipeline may raise. `external` is an exception of a client library.
pub data Exc : Type 0 where
  value_error : Exc
  index_error : Exc
  key_error : String → Exc
  hybrid_index_error : String → Exc
  provider_error : String → Exc
  external : String → Exc

-- To split on a computed result and keep the equation.
pub Result-cases {ℓ κ} :
    {E : Type ℓ} {A : Type κ} (r : Result E A) → ((a : A) × (r ≡ ok a)) ⊎ ((e : E) × (r ≡ err e))
Result-cases (ok a) = inl (a, refl)
Result-cases (err e) = inr (e, refl)
