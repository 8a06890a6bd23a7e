-- ===== src/Literal/Examples.antt =====
-- Runs of the string literals, and their theorems at concrete inputs.
use bnl.Prelude.{◌≡◌, refl, arith, [], ◌∷◌, ◌++◌}
use bnl.Error.{ok, err, incomplete}
use bnl.Huffman.{symbol_encode}
use bnl.Huffman.Padding.{Kept, start}
use bnl.Literal.{encode, decode}
use bnl.Literal.RoundTrip.{decode-encode_literal}

-- "age", which is shorter with the code, and "{}", which is not.
encode_age : encode 0 (97 ∷ 103 ∷ 101 ∷ []) 7 ≡ 0x82 ∷ 0x1c ∷ 0xc5 ∷ []
unfolding encode bnl.Huffman.encoded_size bnl.PrefixInt.encode bnl.Huffman.encode
encode_age = refl

encode_braces : encode 0 (123 ∷ 125 ∷ []) 3 ≡ 2 ∷ 123 ∷ 125 ∷ []
unfolding encode bnl.Huffman.encoded_size bnl.PrefixInt.encode
encode_braces = refl

decode_short : decode 7 (0x82 ∷ 0x1c ∷ []) ≡ (err incomplete, 0x82 ∷ 0x1c ∷ [])
unfolding decode bnl.PrefixInt.decode
decode_short = refl

age-Kept : Kept (97 ∷ 103 ∷ 101 ∷ []) start
unfolding symbol_encode bnl.Huffman.Encoding.symbol_at
age-Kept = (omega arith, refl, (omega arith, refl, (omega arith, refl, tt)))

decode-encode_literal_example :
    decode 3 (encode 0x20 (97 ∷ 103 ∷ 101 ∷ []) 3 ++ 7 ∷ []) ≡ (ok (97 ∷ 103 ∷ 101 ∷ []), 7 ∷ [])
decode-encode_literal_example =
    decode-encode_literal 3 0x20 (97 ∷ 103 ∷ 101 ∷ []) (7 ∷ []) (omega arith) (omega arith)
      (omega arith) (λ shorter. age-Kept) (omega arith)
