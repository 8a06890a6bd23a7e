-- ===== src/Qpack/RoundTrip.antt =====
-- `decode` after `encode`, header by header.
use bnl.Prelude.{
  ℕ, suc, ◌+◌, ◌-◌, ◌%◌, ◌^◌, ◌≡◌, refl, ◌∙◌, arith, true, false, List, ◌∷◌, ◌++◌, append_assoc,
  length, length-append, ltb, le→ltb,
}
use bnl.Error.{ok}
use bnl.Event.{Header, header_is_lowercase}
use bnl.PrefixInt
use bnl.PrefixInt.RoundTrip.{decode-encode_prefix, encode-keeps_high}
use bnl.Literal
use bnl.Literal.{smaller_size}
use bnl.Literal.RoundTrip.{Readable, decode-encode_literal}
use bnl.Qpack.{
  Coder, State, at_prefix, at_header, instruction_encode, encode, decode, header_decode,
  instruction_decode, indexed_decode, reference_decode, literal_decode, found_header, found_name,
  lowercase_only, consume_header, prefix_bytes,
}
use bnl.Qpack.Table.{
  InstructionType, header_value, header_only, missing, unknown, find_index, find_type,
}
use bnl.Qpack.FirstByte.{indexed_byte, reference_byte, literal_byte, name_head}
use bnl.Qpack.Table.Agree.{Recognised, Found, find_index-Found}

-- A value, and a name behind its first byte.
value_lem :
    (text rest : List ℕ)
    → Readable text
    → Literal.decode 7 (Literal.encode 0x00 text 7 ++ rest) ≡ (ok text, rest)
value_lem text rest r =
    decode-encode_literal 7 0x00 text rest (omega arith) (omega arith) (omega arith) r.0 r.1

name_lem :
    (text rest : List ℕ)
    → Readable text
    → Literal.decode 3 (Literal.encode 0x20 text 3 ++ rest) ≡ (ok text, rest)
name_lem text rest r =
    decode-encode_literal 3 0x20 text rest (omega arith) (omega arith) (omega arith) r.0 r.1

-- `header_decode` where the first byte is known.
pub header_decode_lem :
    (type : InstructionType) (head : ℕ) (more bytes rest : List ℕ) (header : Header)
    → bytes ≡ head ∷ more
    → find_type head ≡ type
    → instruction_decode type head bytes ≡ (ok header, rest)
    → header_decode bytes ≡ (ok header, rest)
unfolding header_decode
header_decode_lem type head more bytes rest header e t d = rw (e, t, ← e, d) refl

instruction_lem :
    (header : Header) (rest : List ℕ) (found : InstructionType × ℕ)
    → Found header found
    → header_is_lowercase header ≡ true
    → Readable header.name
    → Readable header.value
    → header_decode (instruction_encode header found ++ rest) ≡ (ok header, rest)
unfolding instruction_encode instruction_decode indexed_decode reference_decode literal_decode
    found_header found_name lowercase_only
instruction_lem header rest (header_value, index) (small, f) l n v =
    let (head, more, e, q) = encode-keeps_high 6 0xc0 index (omega arith) (omega arith) in
    let (t, b) = indexed_byte head q in
    let m : index % 2 ^ 8 ≡ index = omega arith in
    header_decode_lem header_value head (more ++ rest) (PrefixInt.encode 0xc0 index 6 ++ rest) rest
      header (rw e refl) t
      (rw
        (b, decode-encode_prefix 6 0xc0 index rest (omega arith) (omega arith) (omega arith), m, f)
        refl)
instruction_lem header rest (header_only, index) (small, f) l n v =
    let (head, more, e, q) = encode-keeps_high 4 0x50 index (omega arith) (omega arith) in
    let (t, b) = reference_byte head q in
    let m : index % 2 ^ 8 ≡ index = omega arith in
    header_decode_lem header_only head (more ++ (Literal.encode 0x00 header.value 7 ++ rest)) _ rest
      header
      (append_assoc (PrefixInt.encode 0x50 index 4) (Literal.encode 0x00 header.value 7) rest
        ∙ rw e refl)
      t
      (rw
        (
          b,
          append_assoc (PrefixInt.encode 0x50 index 4) (Literal.encode 0x00 header.value 7) rest,
          decode-encode_prefix 4 0x50 index (Literal.encode 0x00 header.value 7 ++ rest)
              (omega arith) (omega arith) (omega arith),
          m,
          f,
          value_lem header.value rest v,
        )
        refl)
instruction_lem header rest (missing, index) f l n v =
    let (head, more, e, q) = name_head header.name in
    header_decode_lem missing head (more ++ (Literal.encode 0x00 header.value 7 ++ rest)) _ rest
      header
      (append_assoc (Literal.encode 0x20 header.name 3) (Literal.encode 0x00 header.value 7) rest
        ∙ rw e refl)
      (literal_byte head q)
      (rw
        (
          append_assoc (Literal.encode 0x20 header.name 3) (Literal.encode 0x00 header.value 7)
              rest,
          name_lem header.name (Literal.encode 0x00 header.value 7 ++ rest) n,
          value_lem header.value rest v,
          l,
        )
        refl)
instruction_lem header rest (unknown, index) f l n v = cc

decode_at :
    (state : State) (count : ℕ) (bytes rest : List ℕ) (header : Header)
    → header_decode (bytes ++ rest) ≡ (ok header, rest)
    → decode (record { state = state; count = count }, (prefix_bytes state ++ bytes) ++ rest) ≡ (
      ok header,
      (
        record {
          state = at_header;
          count = (count + length (prefix_bytes state ++ bytes)) % 2 ^ 64;
        },
        rest,
      ),
    )
unfolding decode consume_header
decode_at at_header count bytes rest header h =
    let m : length (bytes ++ rest) - length rest ≡ length bytes =
      omega (arith, length-append bytes rest) in
    rw (h, m) refl
decode_at at_prefix count bytes rest header h =
    let m : length (bytes ++ rest) - length rest ≡ length bytes =
      omega (arith, length-append bytes rest) in
    let k : ((count + 2) % 2 ^ 64 + length bytes) % 2 ^ 64
        ≡ (count + suc (suc (length bytes))) % 2 ^ 64 =
      omega arith in
    let z : ltb (suc (suc (length (bytes ++ rest)))) 2 ≡ false = le→ltb _ _ (omega arith) in
    rw (z, h, m, k) refl

-- A header that encoder and decoder agree on.
pub record Sendable (hash : List ℕ → ℕ) (header : Header) : Type 0 where
  pub recognised : Recognised hash header
  pub lowercase : header_is_lowercase header ≡ true
  pub name_readable : Readable header.name
  pub value_readable : Readable header.value

-- `decode` reads back the header that `encode` wrote, from the state and the count that the encoder
-- had, and gets to the state and the count that the encoder has; it leaves what follows. The name
-- is in lower case, name and value have less than 2^32 characters each, no text of the static table
-- is taken for them by its hash, and where the Huffman code is the shorter form of one of them, no
-- bits of it are lost.
pub decode-encode_header :
    (hash : List ℕ → ℕ) (header : Header) (e : Coder) (rest : List ℕ)
    → Sendable hash header
    → decode (e, (encode hash header e).0 ++ rest) ≡ (ok header, ((encode hash header e).1, rest))
unfolding encode
decode-encode_header hash header e rest s =
    decode_at e.state e.count (instruction_encode header (find_index hash header)) rest header (
      instruction_lem header rest (find_index hash header)
        (find_index-Found hash header s.recognised) s.lowercase s.name_readable s.value_readable)
