-- ===== src/Object.antt =====
-- Member functions that change their object: the result, and the object as it is afterwards.
use bnl.Error.{Result, ok, err, stuck}

abbrev pub Op {ℓ κ} : Type ℓ → Type κ → Type (ℓ ⊔ κ)
Op S A = S → Result A × S

-- `BNL_TRY` in a member function: an error is returned at once.
abbrev pub attempt {ℓ κ μ} :
    {S : Type ℓ} {A : Type κ} {B : Type μ} → Result A → (A → Op S B) → Op S B
attempt (ok value) next s = next value s
attempt (err code) next s = (err code, s)
attempt stuck next s = (stuck, s)
