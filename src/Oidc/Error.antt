-- ===== src/Oidc/Error.antt =====
-- The errors of the verifier, and results that may be one.
use kro_lab.Prelude.{String}

pub data Error : Type 0 where
  message : String → Error
  -- fmt.Errorf("…: %w", err)
  wrapped : String → Error → Error
  -- an error of encoding/json: a text that is not JSON, or a value of another type
  json : Error
  -- an error of client.Get
  fetch : Error
  -- an error of os.ReadFile
  file : Error

pub data Result {ℓ} (A : Type ℓ) : Type ℓ where
  ok : A → Result A
  err : Error → Result A

unfoldable pub bind {ℓ κ} : {A : Type ℓ} {B : Type κ} → Result A → (A → Result B) → Result B
bind (ok a) f = f a
bind (err e) f = err e

-- fmt.Errorf("…: %w", err) of the error of a call.
unfoldable pub wrap_error {ℓ} : {A : Type ℓ} → String → Result A → Result A
wrap_error text (ok a) = ok a
wrap_error text (err e) = err (wrapped text e)
