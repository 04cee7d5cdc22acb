-- ===== src/Base/Result.antt =====
-- The result of code that may raise. The payload of `err` names the Python exception.
use Prim.Native.String.{String}

pub data PyError : Type 0 where
  value_error type_error runtime_error : PyError
  -- any other exception, with its text
  raised : String → PyError

pub data Result {ℓ} (A : Type ℓ) : Type ℓ where
  ok : A → Result A
  err : PyError → Result A

infixl 5 ◌>>=◌
abbrev pub ◌>>=◌ {ℓ κ} : {A : Type ℓ} {B : Type κ} → Result A → (A → Result B) → Result B
ok a >>= f = f a
err e >>= f = err e
