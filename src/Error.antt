-- ===== src/Error.antt =====
-- bnl/base/include/bnl/http3/result.hpp: the error codes, and `result<T>` with `BNL_TRY` as bind.
use bnl.Prelude.{Bool, true, false, ◌≡◌, refl}

pub data Error : Type 0 where
  no_error internal wrong_stream closed_critical_stream missing_settings unexpected_frame
        malformed_frame qpack_decompression_failed :
      Error
  incomplete idle delegate not_implemented varint_overflow malformed_header stream_closed
        invalid_handle :
      Error

-- `stuck` is no value of the program: a loop of the model ran out of fuel, a union was read by a
-- member that it does not hold, or an exception left a function that is noexcept.
pub data Result {ℓ} (A : Type ℓ) : Type ℓ where
  ok : A → Result A
  err : Error → Result A
  stuck : Result A

infixl 5 ◌>>=◌ ◌>>◌
abbrev pub ◌>>=◌ {ℓ κ} : {A : Type ℓ} {B : Type κ} → Result A → (A → Result B) → Result B
◌>>=◌ (ok value) next = next value
◌>>=◌ (err code) next = err code
◌>>=◌ stuck next = stuck

abbrev pub ◌>>◌ {ℓ κ} : {A : Type ℓ} {B : Type κ} → Result A → Result B → Result B
m >> n = m >>= λ _. n

-- `r.error() == error::incomplete`, and the other two codes that the program tests for.
abbrev pub is_incomplete : Error → Bool
is_incomplete incomplete = true
is_incomplete _ = false

abbrev pub is_idle : Error → Bool
is_idle idle = true
is_idle _ = false

abbrev pub is_delegate : Error → Bool
is_delegate delegate = true
is_delegate _ = false

-- Where `BNL_TRY` went on and the whole succeeded: the value, and both runs.
module _ {ℓ κ} {A : Type ℓ} {B : Type κ} where
  pub tried :
      (first : Result A) (next : A → Result B) {result : B}
      → (first >>= next) ≡ ok result
      → (value : A) × (first ≡ ok value) × (next value ≡ ok result)
  tried (ok value) next run = (value, refl, run)
  tried (err code) next run = cc
  tried stuck next run = cc
