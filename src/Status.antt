-- ===== src/Status.antt =====
-- include/public/nimblefix/base/status.h and result.h: error codes and fallible results. The text
-- of a message is not modelled.

-- `base::ErrorCode` without `kOk`.
pub data ErrorCode : Type 0 where
  invalid_argument io_error busy format_error version_mismatch not_found already_exists : ErrorCode

-- `base::Result<A>`: a value, or a status that is not `kOk`.
pub data Result {ℓ} (A : Type ℓ) : Type ℓ where
  ok : A → Result A
  err : ErrorCode → Result A

-- `base::Status`.
abbrev pub Status : Type 0
Status = Result (Unit {0})

infixl 5 ◌>>=◌
abbrev pub ◌>>=◌ {ℓ κ} : {A : Type ℓ} {B : Type κ} → Result A → (A → Result B) → Result B
ok a >>= f = f a
err e >>= f = err e
