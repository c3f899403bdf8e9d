-- ===== src/Result.antt =====
-- Exceptions as values.
use agentic_identity_lab.Prelude.{ℕ, String, ◌≡◌, refl}

-- The exceptions that the program raises or lets pass, with their messages.
pub data Exception : Type 0 where
  value_error not_implemented_error runtime_error : String → Exception
  overflow_error type_error attribute_error key_error : Exception
  -- what PyJWT and httpx raise, which is no ValueError
  library_error : String → Exception
  -- fastapi's HTTPException
  http_exception : (status_code : ℕ) (detail : String) → Exception

-- What a call comes to: its value, or the exception that it raises.
pub data Result {ℓ} (Val : Type ℓ) : Type ℓ where
  raise : (exception : Exception) → Result Val
  ok : (value : Val) → Result Val

-- A call and what is done with its value; an exception passes through.
infixl 5 ◌>>=◌
abbrev pub ◌>>=◌ {ℓ κ} :
    {Val : Type ℓ} {Next : Type κ} → (call : Result Val) → (next : Val → Result Next) → Result Next
raise exception >>= next = raise exception
ok value >>= next = next value

pub >>=-eq-ok {ℓ κ} :
    {Val : Type ℓ} {Next : Type κ} (m : Result Val) (f : Val → Result Next) {b : Next}
    → (m >>= f) ≡ ok b
    → (a : Val) × (m ≡ ok a) × (f a ≡ ok b)
>>=-eq-ok (ok a) f h = (a, refl, h)
>>=-eq-ok (raise e) f h = cc

pub ok_injective {ℓ} : {A : Type ℓ} {a b : A} → ok a ≡ ok b → a ≡ b
ok_injective h = cc
