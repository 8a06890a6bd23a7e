-- ===== src/PrefixInt.antt =====
-- bnl/http3/src/codec/qpack/prefix_int: integers that start in the low bits of a byte. `encode`
-- gets the byte that stands at `dest` and returns the bytes that it writes, that byte included.
pub mod RoundTrip
mod Examples
use bnl.Prelude.{
  ℕ, zero, suc, ◌+◌, ◌-◌, ◌*◌, ◌/◌, ◌%◌, ◌^◌, ◌≤◌, ◌<◌, arith, List, [], ◌∷◌, length, ltb, leb,
  ◌==◌, if◌then◌else◌, bit_and, bit_or, lt_wf,
}
use bnl.Error.{ok, err, incomplete}
use bnl.Reader.{Reader, ◌>>=◌, pure}
use mathlib.Core.WellFounded.{Acc}
use mathlib.Core.Logic.{dite}
use native.Mathlib.Decide.{dec_le}

-- `static_cast<uint8_t>((1U << prefix) - 1)`
abbrev pub max_of_prefix : ℕ → ℕ
max_of_prefix prefix = (2 ^ prefix - 1) % 2 ^ 8

pub quotient_smaller : (value : ℕ) → 128 ≤ value → value / 128 < value
quotient_smaller value h = omega arith

-- `while (value >= 128) { value /= 128; encoded_size++; }` and the last increment.
unfoldable pub size_loop : (value : ℕ) → Acc ◌<◌ value → ℕ → ℕ
size_loop value (Acc.intro _ smaller) encoded_size =
    dite (dec_le 128 value)
      (λ more. size_loop (value / 128) (smaller _ (quotient_smaller value more)) (encoded_size + 1))
      (λ done. encoded_size + 1)

unfoldable pub encoded_size : ℕ → ℕ → ℕ
unfolding size_loop dec_le lt_wf
encoded_size value prefix =
    if ltb value (max_of_prefix prefix)
    then 1
    else size_loop (value - max_of_prefix prefix) (lt_wf.apply _) 1

-- The bytes of the `while` loop of `encode`, and the last one.
unfoldable pub write_loop : (value : ℕ) → Acc ◌<◌ value → List ℕ
write_loop value (Acc.intro _ smaller) =
    dite (dec_le 128 value)
      (λ more.
        ((value % 128 + 128) % 2 ^ 8)
        ∷ write_loop (value / 128) (smaller _ (quotient_smaller value more)))
      (λ done. (value % 2 ^ 8) ∷ [])

unfoldable pub encode : ℕ → ℕ → ℕ → List ℕ
unfolding write_loop dec_le lt_wf
encode at_dest value prefix =
    let most = max_of_prefix prefix in
    if ltb value most
    then bit_or (bit_and at_dest (255 - most)) (value % 2 ^ 8) ∷ []
    else bit_or at_dest most ∷ write_loop (value - most) (lt_wf.apply _)

unfoldable pub uint8_decode : Reader ℕ
uint8_decode [] = (err incomplete, [])
uint8_decode (b ∷ s) = (ok b, s)

-- `(byte & 127U) * (1U << offset)`, a product of uint32_t. From offset 32 on the shift is undefined
-- in C++; here it is 0.
abbrev pub group_value : ℕ → ℕ → ℕ
group_value byte offset = bit_and byte 127 * (2 ^ offset % 2 ^ 32) % 2 ^ 32

-- The `do` loop: one byte a round.
unfoldable pub read_loop : ℕ → ℕ → Reader ℕ
read_loop result offset [] = (err incomplete, [])
read_loop result offset (byte ∷ s) =
    let sum = (result + group_value byte offset) % 2 ^ 64 in
    let more = read_loop sum (offset + 7) s in if bit_and byte 128 == 128 then more else (ok sum, s)

-- The bytes are read from the sequence itself and not through the lookahead, so that they are
-- gone after an error too.
unfoldable pub decode : ℕ → Reader ℕ
unfolding uint8_decode read_loop
decode prefix = do
  byte ← uint8_decode
  λ s.
      let result = bit_and byte (max_of_prefix prefix) in
      if leb (max_of_prefix prefix) result then read_loop result 0 s else (ok result, s)
