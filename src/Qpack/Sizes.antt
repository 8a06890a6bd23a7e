-- ===== src/Qpack/Sizes.antt =====
-- The sizes of the encoder, and the indices of the decoder.
use bnl.Prelude.{
  ℕ, ◌+◌, ◌-◌, ◌*◌, ◌%◌, ◌^◌, ◌<◌, ◌≡◌, refl, sym, ap, ◌∙◌, arith, true, List, ◌++◌, length,
  length-append, some,
}
use bnl.Error.{ok}
use bnl.Event.{Header, header_is_lowercase}
use bnl.PrefixInt
use bnl.PrefixInt.RoundTrip.{decode-encode_prefix, encode-keeps_high, length-encode}
use bnl.Literal
use bnl.Literal.RoundTrip.{length-encode_literal}
use bnl.Qpack.{
  Coder, State, at_prefix, at_header, instruction_size, instruction_encode, encoded_size, encode,
  header_decode, instruction_decode, indexed_decode, found_header, prefix_bytes, prefix_size,
}
use bnl.Qpack.Table.{
  InstructionType, header_value, header_only, missing, unknown, find_index, find_header_value,
}
use bnl.Qpack.FirstByte.{indexed_byte}
use bnl.Qpack.RoundTrip.{header_decode_lem}

length-instruction :
    (header : Header) (found : InstructionType × ℕ)
    → length (instruction_encode header found) ≡ instruction_size header found
unfolding instruction_encode instruction_size
length-instruction header (header_value, index) = length-encode 6 0xc0 index
length-instruction header (header_only, index) =
    length-append (PrefixInt.encode 0x50 index 4) (Literal.encode 0x00 header.value 7)
    ∙ rw (length-encode 4 0x50 index, length-encode_literal 7 0x00 header.value) refl
length-instruction header (missing, index) =
    length-append (Literal.encode 0x20 header.name 3) (Literal.encode 0x00 header.value 7)
    ∙ rw (length-encode_literal 3 0x20 header.name, length-encode_literal 7 0x00 header.value) refl
length-instruction header (unknown, index) = refl

length-prefix : (state : State) → length (prefix_bytes state) ≡ prefix_size state
length-prefix at_prefix = refl
length-prefix at_header = refl

-- `encode` fills exactly the buffer of `encoded_size` bytes, for every header with a name in lower
-- case and for every hash function.
pub encoded_size-eq-length :
    (hash : List ℕ → ℕ) (header : Header) (e : Coder)
    → header_is_lowercase header ≡ true
    → encoded_size hash header e ≡ ok (length (encode hash header e).0)
unfolding encoded_size encode
encoded_size-eq-length hash header e l = rw l (
    ap ok (
      sym (
        length-append (prefix_bytes e.state) (instruction_encode header (find_index hash header))
        ∙ rw (length-prefix e.state, length-instruction header (find_index hash header)) refl)))

-- The decoder casts an index to uint8_t: an indexed header field whose index is larger than that of
-- a header in the static table by 256 * k, for k below 2^24 - 1, is read as that header, and not
-- refused.
pub header_decode-aliases :
    (k index : ℕ) (header : Header) (rest : List ℕ)
    → index < 256
    → find_header_value index ≡ some header
    → k < 2 ^ 24 - 1
    → header_decode (PrefixInt.encode 0xc0 (k * 256 + index) 6 ++ rest) ≡ (ok header, rest)
unfolding instruction_decode indexed_decode found_header
header_decode-aliases k index header rest small f hk =
    let (head, more, e, q) =
      encode-keeps_high 6 0xc0 (k * 256 + index) (omega arith) (omega arith) in
    let (t, b) = indexed_byte head q in
    let m : (k * 256 + index) % 2 ^ 8 ≡ index = omega arith in
    header_decode_lem header_value head (more ++ rest)
      (PrefixInt.encode 0xc0 (k * 256 + index) 6 ++ rest) rest header (rw e refl) t
      (rw
        (
          b,
          decode-encode_prefix 6 0xc0 (k * 256 + index) rest (omega arith) (omega arith)
              (omega arith),
          m,
          f,
        )
        refl)
