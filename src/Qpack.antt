-- ===== src/Qpack.antt =====
-- bnl/http3/src/codec/qpack/encode.cpp and decode.cpp: the codec of header blocks. Only the static
-- table is used. The header codec uses it as `codec`.
pub mod Table
pub mod FirstByte
pub mod RoundTrip
pub mod Sizes
pub mod Codec
pub mod Sample
mod Examples
use bnl.Prelude.{
  ℕ, ◌+◌, ◌-◌, ◌%◌, ◌^◌, Bool, true, false, List, [], ◌∷◌, ◌++◌, length, drop, Option, none, some,
  ltb, ◌==◌, if◌then◌else◌, bit_and,
}
use bnl.Error.{Result, ok, err, stuck, incomplete, malformed_header, qpack_decompression_failed}
use bnl.Reader.{Reader, ◌>>=◌, pure, fail, lookahead}
use bnl.Object.{Op, attempt}
use bnl.Event.{Header, header_is_lowercase}
use bnl.PrefixInt
use bnl.Literal
use bnl.Qpack.Table.{
  InstructionType, header_value, header_only, missing, unknown, find_index, find_type,
  find_header_value, find_header_only,
}

-- `encoder::state` and `decoder::state`.
pub data State : Type 0 where
  at_prefix at_header : State

-- `encoder` and `decoder` have the same members.
pub record Coder : Type 0 where
  pub state : State
  pub count : ℕ

abbrev pub new_coder : Coder
new_coder = record { state = at_prefix; count = 0 }

abbrev pub prefix_encoded_size : ℕ
prefix_encoded_size = 2

abbrev pub prefix_size : State → ℕ
prefix_size at_prefix = prefix_encoded_size
prefix_size at_header = 0

abbrev pub prefix_bytes : State → List ℕ
prefix_bytes at_prefix = 0 ∷ 0 ∷ []
prefix_bytes at_header = []

-- The switches of `encoded_size` and of `encode`, over what `find_index` returned. No index is of
-- type `unknown`.
unfoldable pub instruction_size : Header → InstructionType × ℕ → ℕ
instruction_size header (header_value, index) = PrefixInt.encoded_size index 6
instruction_size header (header_only, index) =
    PrefixInt.encoded_size index 4 + Literal.encoded_size header.value 7
instruction_size header (missing, index) =
    Literal.encoded_size header.name 3 + Literal.encoded_size header.value 7
instruction_size header (unknown, index) = 0

unfoldable pub instruction_encode : Header → InstructionType × ℕ → List ℕ
instruction_encode header (header_value, index) = PrefixInt.encode 0xc0 index 6
instruction_encode header (header_only, index) =
    PrefixInt.encode 0x50 index 4 ++ Literal.encode 0x00 header.value 7
instruction_encode header (missing, index) =
    Literal.encode 0x20 header.name 3 ++ Literal.encode 0x00 header.value 7
instruction_encode header (unknown, index) = []

module _ (hash : List ℕ → ℕ) where
  unfoldable pub encoded_size : Header → Coder → Result ℕ
  unfolding instruction_size
  encoded_size header e =
      if header_is_lowercase header
      then ok (prefix_size e.state + instruction_size header (find_index hash header))
      else err malformed_header

  unfoldable pub encode : Header → Coder → List ℕ × Coder
  unfolding instruction_encode
  encode header e =
      let written = prefix_bytes e.state ++ instruction_encode header (find_index hash header) in
      (written, record { state = at_header; count = (e.count + length written) % 2 ^ 64 })

  -- The buffer of `encoded_size` bytes is filled by `encode`.
  unfoldable pub encode_buffer : Header → Op Coder (List ℕ)
  unfolding encoded_size encode
  encode_buffer header e =
      attempt (encoded_size header e) (λ size s. (ok (encode header s).0, (encode header s).1)) e

-- The case `header_value`, behind the check of the first byte.
unfoldable pub found_header : Option Header → Reader Header
found_header none = fail qpack_decompression_failed
found_header (some header) = pure header

unfoldable pub indexed_decode : Reader Header
unfolding found_header
indexed_decode = PrefixInt.decode 6 >>= λ index. found_header (find_header_value (index % 2 ^ 8))

-- The case `header_only`, behind the check of the first byte.
unfoldable pub found_name : Option (List ℕ) → Reader Header
found_name none = fail qpack_decompression_failed
found_name (some name) = Literal.decode 7 >>= λ value. pure (record { name = name; value = value })

unfoldable pub reference_decode : Reader Header
unfolding found_name
reference_decode = PrefixInt.decode 4 >>= λ index. found_name (find_header_only (index % 2 ^ 8))

-- The case `missing`.
unfoldable pub lowercase_only : Header → Reader Header
lowercase_only header = if header_is_lowercase header then pure header else fail malformed_header

unfoldable pub literal_decode : Reader Header
unfolding lowercase_only
literal_decode = Literal.decode 3 >>= λ name.
    Literal.decode 7 >>= λ value. lowercase_only (record { name = name; value = value })

-- The switch of `decode` over the type of the first byte.
unfoldable pub instruction_decode : InstructionType → ℕ → Reader Header
unfolding indexed_decode reference_decode literal_decode
instruction_decode header_value byte =
    if bit_and byte 0x40 == 0 then fail qpack_decompression_failed else indexed_decode
instruction_decode header_only byte =
    if bit_and byte 0x10 == 0 then fail qpack_decompression_failed else reference_decode
instruction_decode missing byte = literal_decode
instruction_decode unknown byte = fail qpack_decompression_failed

-- What `decode` reads through its lookahead.
unfoldable pub header_decode : Reader Header
unfolding instruction_decode
header_decode [] = (err incomplete, [])
header_decode (byte ∷ encoded) =
    lookahead (instruction_decode (find_type byte) byte) (byte ∷ encoded)

-- The end of `decode`: the bytes that the lookahead consumed are counted.
unfoldable pub consume_header :
    ℕ → Coder → Result Header × List ℕ → Result Header × (Coder × List ℕ)
consume_header before d (ok header, encoded) =
    (ok header, (record d { count = (d.count + (before - length encoded)) % 2 ^ 64 }, encoded))
consume_header before d (err code, encoded) = (err code, (d, encoded))
consume_header before d (stuck, encoded) = (stuck, (d, encoded))

unfoldable pub decode : Op (Coder × List ℕ) Header
unfolding header_decode consume_header
decode (d, encoded) =
    let rest = drop prefix_encoded_size encoded in
    let begun : Coder = record {
      state = at_header;
      count = (d.count + prefix_encoded_size) % 2 ^ 64;
    } in
    elim d.state [
      | at_prefix ↦
          if ltb (length encoded) prefix_encoded_size
          then (err incomplete, (d, encoded))
          else consume_header (length rest) begun (header_decode rest)
      | at_header ↦ consume_header (length encoded) d (header_decode encoded)
    ]
