-- ===== src/Huffman.antt =====
-- bnl/http3/src/codec/qpack/huffman/encode.cpp and decode.cpp.
pub mod Encoding
pub mod Decoding
pub mod Bits
pub mod Tree
pub mod Walk
pub mod Decode
pub mod Encode
pub mod Pack
pub mod Padding
pub mod RoundTrip
pub mod Sizes
pub mod Printable
mod Examples
use bnl.Prelude.{
  ℕ, zero, suc, ◌+◌, ◌-◌, ◌*◌, ◌/◌, ◌%◌, ◌^◌, Bool, true, false, not, List, [], ◌∷◌, ◌++◌, length,
  take, drop, ltb, leb, ◌==◌, if◌then◌else◌, bit_and, bit_or,
}
use bnl.Error.{Result, ok, err, stuck, incomplete, qpack_decompression_failed}
use bnl.Reader.{Reader}
use bnl.Huffman.Encoding.{symbol_at}
use bnl.Huffman.Encoding.Entry.{Symbol, symbol_code, symbol_bits}
use bnl.Huffman.Decoding.{accepted_flag, symbol_flag, failed_flag, node_at}
use bnl.Huffman.Decoding.Entry.{Node, node_state, node_flags, node_symbol}

-- The sum of `num_bits` over the string.
unfoldable pub count_bits : List ℕ → ℕ
unfolding symbol_at
count_bits [] = 0
count_bits (byte ∷ string) = symbol_bits (symbol_at byte) + count_bits string

unfoldable pub encoded_size : List ℕ → ℕ
unfolding count_bits
encoded_size string = (count_bits string + 7) / 8

-- What has been written: the bytes before `dest`, the byte at `dest`, and `rem_bits`.
pub record Output : Type 0 where
  pub written : List ℕ
  pub current : ℕ
  pub rem_bits : ℕ

-- The `while` loop of `symbol_encode`: the bytes that it writes, and the bits that are left. Each
-- round takes 8 bits off `num_bits`, so as much fuel as bits is enough.
unfoldable pub tail_loop : ℕ → ℕ → ℕ → List ℕ × ℕ
tail_loop zero code num_bits = ([], num_bits)
tail_loop (suc fuel) code num_bits =
    let later = tail_loop fuel code (num_bits - 8) in
    if ltb 8 num_bits
    then ((code / 2 ^ (num_bits - num_bits % 8) % 2 ^ 8) ∷ later.0, later.1)
    else ([], num_bits)

-- `code` aligned to the byte boundary, a uint32_t.
unfoldable pub align : ℕ → ℕ → ℕ
align code num_bits =
    if bit_and num_bits 0x7 == 0 then code else code * 2 ^ (8 - bit_and num_bits 0x7) % 2 ^ 32

-- The bytes behind the first one, for the bits of the code that did not fit into it.
unfoldable pub tail_encode : ℕ → ℕ → Output
unfolding tail_loop align
tail_encode code num_bits =
    let rounds = tail_loop num_bits (align code num_bits) num_bits in
    record { written = rounds.0; current = align code num_bits % 2 ^ 8; rem_bits = 8 - rounds.1 }

-- The end of `symbol_encode`: `dest` moves on behind a full byte.
unfoldable pub finish_byte : Output → Output
finish_byte out =
    if out.rem_bits == 0
    then record out { written = out.written ++ (out.current ∷ []); current = 0; rem_bits = 8 }
    else out

-- `symbol_encode`. The byte at `dest` is set to 0 before the first bit of it is written.
unfoldable pub symbol_encode : Symbol → Output → Output
unfolding tail_encode finish_byte
symbol_encode entry out =
    let code = symbol_code entry in
    let num_bits = symbol_bits entry in
    let current = if out.rem_bits == 8 then 0 else out.current in
    let tail = tail_encode code (num_bits - out.rem_bits) in
    let first = bit_or current (code / 2 ^ (num_bits - out.rem_bits) % 2 ^ 8) in
    if leb num_bits out.rem_bits
    then finish_byte (record out {
      current = bit_or current (code * 2 ^ (out.rem_bits - num_bits) % 2 ^ 8);
      rem_bits = out.rem_bits - num_bits;
    })
    else finish_byte (record {
      written = out.written ++ (first ∷ tail.written);
      current = tail.current;
      rem_bits = tail.rem_bits;
    })

-- The loop of `encode` over the string.
unfoldable pub encode_loop : List ℕ → Output → Output
unfolding symbol_encode symbol_at
encode_loop [] out = out
encode_loop (byte ∷ string) out = encode_loop string (symbol_encode (symbol_at byte) out)

-- The last byte is padded with the first bits of the symbol for the end of the string.
unfoldable pub pad : Output → List ℕ
unfolding symbol_at
pad out =
    let last =
      bit_or out.current
        (symbol_code (symbol_at 256) / 2 ^ (symbol_bits (symbol_at 256) - out.rem_bits) % 2 ^ 8) in
    if ltb out.rem_bits 8 then out.written ++ (last ∷ []) else out.written

unfoldable pub encode : List ℕ → List ℕ
unfolding encode_loop pad
encode string = pad (encode_loop string (record { written = []; current = 0; rem_bits = 8 }))

abbrev pub has_flag : ℕ → Node → Bool
has_flag flag entry = not (bit_and (node_flags entry) flag == 0)

abbrev pub counted : Node → ℕ
counted entry = if has_flag symbol_flag entry then 1 else 0

-- The loop of `decoded_size`.
unfoldable pub size_loop : List ℕ → ℕ → Bool → ℕ → Result ℕ
unfolding node_at
size_loop [] state accept size = if accept then ok size else err qpack_decompression_failed
size_loop (byte ∷ bytes) state accept size =
    let first = node_at state (byte / 2 ^ 4) in
    let second = node_at (node_state first) (bit_and byte 0xf) in
    let later =
      size_loop bytes (node_state second) (has_flag accepted_flag second)
        (size + counted first + counted second) in
    if has_flag failed_flag first
    then err qpack_decompression_failed
    else if has_flag failed_flag second
    then err qpack_decompression_failed
    else later

unfoldable pub decoded_size : List ℕ → ℕ → Result ℕ
unfolding size_loop
decoded_size encoded size =
    if ltb (length encoded) size then err incomplete else size_loop (take size encoded) 0 false 0

abbrev pub symbols : Node → List ℕ
symbols entry = if has_flag symbol_flag entry then node_symbol entry ∷ [] else []

-- The loop of `decode`: the characters that it writes.
unfoldable pub decode_loop : List ℕ → ℕ → List ℕ
unfolding node_at
decode_loop [] state = []
decode_loop (byte ∷ bytes) state =
    let first = node_at state (byte / 2 ^ 4) in
    let second = node_at (node_state first) (bit_and byte 0xf) in
    symbols first ++ (symbols second ++ decode_loop bytes (node_state second))

-- The string is as long as `decoded_size` says before its characters are written.
unfoldable pub decode : ℕ → Reader (List ℕ)
unfolding decoded_size decode_loop
decode size encoded = elim (decoded_size encoded size) [
  | ok decoded ↦ (ok (decode_loop (take size encoded) 0), drop size encoded)
  | err e ↦ (err e, encoded)
  | stuck ↦ (stuck, encoded)
]
