-- ===== src/Varint.antt =====
-- bnl/http3/src/codec/varint: QUIC variable-length integers. `encode` returns the bytes that it
-- writes at `dest`, in order; a byte sequence is a list of numbers.
mod Bytes
pub mod Encode
pub mod Decode
pub mod RoundTrip
mod Examples
use bnl.Prelude.{
  ℕ, ◌+◌, ◌*◌, ◌/◌, ◌%◌, ◌^◌, List, [], ◌∷◌, ◌++◌, length, drop, get_or, replicate, ltb, ◌==◌,
  if◌then◌else◌, bit_and, bit_or,
}
use bnl.Error.{Result, ok, err, incomplete, varint_overflow, ◌>>=◌}
use bnl.Reader.{Reader}

unfoldable pub encoded_size : ℕ → Result ℕ
encoded_size varint =
    if ltb varint 0x40
    then ok 1
    else if ltb varint (0x40 * 2 ^ 8)
    then ok 2
    else if ltb varint (0x40 * 2 ^ 24)
    then ok 4
    else if ltb varint (0x40 * 2 ^ 56)
    then ok 8
    else err varint_overflow

-- `static_cast<uint8_t>(number >> k)`
abbrev byte_at : ℕ → ℕ → ℕ
byte_at number k = number / 2 ^ k % 2 ^ 8

uint8_encode : ℕ → List ℕ
uint8_encode number = bit_or (byte_at number 0) 0x00 ∷ []

uint16_encode : ℕ → List ℕ
uint16_encode number = bit_or (byte_at number 8) 0x40 ∷ byte_at number 0 ∷ []

uint32_encode : ℕ → List ℕ
uint32_encode number =
    bit_or (byte_at number 24) 0x80 ∷ byte_at number 16 ∷ byte_at number 8 ∷ byte_at number 0 ∷ []

uint64_encode : ℕ → List ℕ
uint64_encode number =
    bit_or (byte_at number 56) 0xc0
    ∷ byte_at number 48
    ∷ byte_at number 40
    ∷ byte_at number 32
    ∷ byte_at number 24
    ∷ byte_at number 16
    ∷ byte_at number 8
    ∷ byte_at number 0
    ∷ []

-- The `switch` of `encode`; the last case is `assert(false)`.
encode_sized : ℕ → ℕ → List ℕ
unfolding uint8_encode uint16_encode uint32_encode uint64_encode
encode_sized varint_size varint =
    if varint_size == 1
    then uint8_encode (varint % 2 ^ 8)
    else if varint_size == 2
    then uint16_encode (varint % 2 ^ 16)
    else if varint_size == 4
    then uint32_encode (varint % 2 ^ 32)
    else if varint_size == 8
    then uint64_encode varint
    else []

unfoldable pub encode : ℕ → Result (List ℕ)
unfolding encode_sized encoded_size
encode varint = do varint_size ← encoded_size varint; ok (encode_sized varint_size varint)

-- A buffer of `size` bytes after `written` was written to its front; bytes that no write reaches
-- are shown as 0.
abbrev pub written_to : ℕ → List ℕ → List ℕ
written_to size written = written ++ drop (length written) (replicate size 0)

-- The overload that allocates the buffer.
pub encode_buffer : ℕ → Result (List ℕ)
encode_buffer varint = do
  size ← encoded_size varint
  written ← encode varint
  ok (written_to size written)

-- `lookahead[i]`, cast to w bits and shifted left by k.
abbrev shifted : ℕ → List ℕ → ℕ → ℕ → ℕ
shifted w encoded i k = get_or encoded i 0 * 2 ^ k % 2 ^ w

uint8_decode : List ℕ → ℕ
uint8_decode encoded = bit_and (get_or encoded 0 0) 0x3f

uint16_decode : List ℕ → ℕ
uint16_decode encoded = bit_and (bit_or (shifted 16 encoded 0 8) (shifted 16 encoded 1 0)) 0x3fff

uint32_decode : List ℕ → ℕ
uint32_decode encoded =
    bit_and
      (bit_or
        (bit_or (bit_or (shifted 32 encoded 0 24) (shifted 32 encoded 1 16))
          (shifted 32 encoded 2 8))
        (shifted 32 encoded 3 0))
      0x3fff_ffff

uint64_decode : List ℕ → ℕ
uint64_decode encoded =
    let high =
      bit_or
        (bit_or (bit_or (shifted 64 encoded 0 56) (shifted 64 encoded 1 48))
          (shifted 64 encoded 2 40))
        (shifted 64 encoded 3 32) in
    bit_and
      (bit_or
        (bit_or (bit_or (bit_or high (shifted 64 encoded 4 24)) (shifted 64 encoded 5 16))
          (shifted 64 encoded 6 8))
        (shifted 64 encoded 7 0))
      0x3fff_ffff_ffff_ffff

-- The `switch` of `decode`: the value, and the bytes that the lookahead consumed.
decode_sized : ℕ → List ℕ → ℕ × ℕ
unfolding uint8_decode uint16_decode uint32_decode uint64_decode
decode_sized varint_size encoded =
    if varint_size == 1
    then (uint8_decode encoded, 1)
    else if varint_size == 2
    then (uint16_decode encoded, 2)
    else if varint_size == 4
    then (uint32_decode encoded, 4)
    else if varint_size == 8
    then (uint64_decode encoded, 8)
    else (0, 0)

-- `varint_size <<= header`, where the header is the top two bits of the first byte.
size_of_header : List ℕ → ℕ
size_of_header encoded = 1 * 2 ^ (get_or encoded 0 0 / 2 ^ 6)

unfoldable pub decode : Reader ℕ
unfolding decode_sized size_of_header
decode encoded =
    if length encoded == 0
    then (err incomplete, encoded)
    else if ltb (length encoded) (size_of_header encoded)
    then (err incomplete, encoded)
    else (
      ok (decode_sized (size_of_header encoded) encoded).0,
      drop (decode_sized (size_of_header encoded) encoded).1 encoded,
    )
