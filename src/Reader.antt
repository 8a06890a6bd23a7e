-- ===== src/Reader.antt =====
-- Functions that read from a byte sequence by reference: the result and what is left of the
-- sequence, after an error too. `Buffer` and `Buffers` are such sequences by their views.
pub mod Sound
use bnl.Prelude.{List, ℕ}
use bnl.Error.{Error, Result, ok, err, stuck}

abbrev pub Reader {ℓ} : Type ℓ → Type ℓ
Reader A = List ℕ → Result A × List ℕ

abbrev pub continue {ℓ κ} : {A : Type ℓ} {B : Type κ} → Result A → (A → Reader B) → Reader B
continue (ok a) f s = f a s
continue (err e) f s = (err e, s)
continue stuck f s = (stuck, s)

infixl 5 ◌>>=◌ ◌>>◌
abbrev pub ◌>>=◌ {ℓ κ} : {A : Type ℓ} {B : Type κ} → Reader A → (A → Reader B) → Reader B
◌>>=◌ m f s = continue (m s).0 f (m s).1

abbrev pub ◌>>◌ {ℓ κ} : {A : Type ℓ} {B : Type κ} → Reader A → Reader B → Reader B
m >> n = m >>= λ _. n

abbrev pub pure {ℓ} : {A : Type ℓ} → A → Reader A
pure a s = (ok a, s)

abbrev pub fail {ℓ} : {A : Type ℓ} → Error → Reader A
fail e s = (err e, s)

-- What `encoded.consume(lookahead.consumed())` leaves: the bytes are consumed only on success.
abbrev pub commit {ℓ} : {A : Type ℓ} → List ℕ → Result A × List ℕ → Result A × List ℕ
commit s (ok a, s') = (ok a, s')
commit s (err e, s') = (err e, s)
commit s (stuck, s') = (stuck, s)

-- A function that reads through a lookahead of its argument.
abbrev pub lookahead {ℓ} : {A : Type ℓ} → Reader A → Reader A
lookahead m s = commit s (m s)
