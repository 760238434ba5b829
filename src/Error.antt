-- ===== src/Error.antt =====
-- resonate/src/error.rs: the SDK's error type, and results. The variants that wrap a foreign error
-- carry its text.
use resonate_sdk_rs.Prelude.{ℕ, String, ◌≡◌, refl, ap, ◌⊎◌, inl, inr}

pub data Error : Type 0 where
  function_not_found : String → Error
  already_registered : String → Error
  invalid_id : String → String → Error
  server_error : ℕ → String → Error
  encoding_error : String → Error
  decoding_error : String → Error
  serialization_error : String → Error
  http_error : String → Error
  network_error : String → Error
  base64_decode_error : String → Error
  utf8_error : String → Error
  io_error : String → Error
  suspended : Error
  already_settled : Error
  join_error : String → Error
  promise_creation : String → Error
  application : String → Error
  timeout : Error

pub data Result {ℓ} (A : Type ℓ) : Type ℓ where
  ok : A → Result A
  err : Error → Result A

-- To split on a computed result and keep the equation.
pub Result-cases {ℓ} :
    {A : Type ℓ} (r : Result A) → ((a : A) × (r ≡ ok a)) ⊎ ((e : Error) × (r ≡ err e))
Result-cases (ok a) = inl (a, refl)
Result-cases (err e) = inr (e, refl)

pub ok_inj {ℓ} : {A : Type ℓ} {a b : A} → ok a ≡ ok b → a ≡ b
ok_inj {A = A} {a} {b} e = ap (λ r. elim r as (λ _. A) [ ok x ↦ x | err _ ↦ a ]) e

-- What serde_json gives: a value, or the text of its error.
pub data Serde (A : Type 0) : Type 0 where
  converted : A → Serde A
  fails : String → Serde A

-- `?`, and `.map_err(Into::into)`.
unfoldable pub from_serde : {A : Type 0} → Serde A → Result A
from_serde (converted a) = ok a
from_serde (fails text) = err (serialization_error text)

pub Serde-cases :
    {A : Type 0} (s : Serde A) → ((a : A) × (s ≡ converted a)) ⊎ ((m : String) × (s ≡ fails m))
Serde-cases (converted a) = inl (a, refl)
Serde-cases (fails m) = inr (m, refl)
