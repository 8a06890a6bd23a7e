-- ===== src/Huffman/Examples.antt =====
-- Runs of the Huffman code, and its theorems at concrete inputs.
use bnl.Prelude.{ℕ, ◌≡◌, refl, arith, List, [], ◌∷◌, ◌++◌, length}
use bnl.Error.{ok, err, qpack_decompression_failed}
use bnl.Huffman.{encode, encoded_size, decode, symbol_encode}
use bnl.Huffman.Padding.{Kept, start}
use bnl.Huffman.RoundTrip.{decode-encode_huffman}
use bnl.Huffman.Printable.{decode-encode-Printable}
use bnl.Huffman.Sizes.{length-encode_huffman}

-- "no-cache" of RFC 7541, C.4.2.
abbrev sample : List ℕ
sample = 110 ∷ 111 ∷ 45 ∷ 99 ∷ 97 ∷ 99 ∷ 104 ∷ 101 ∷ []

encode-sample : encode sample ≡ 0xa8 ∷ 0xeb ∷ 0x10 ∷ 0x64 ∷ 0x9c ∷ 0xbf ∷ []
unfolding encode
encode-sample = refl

decode-sample : decode 6 (0xa8 ∷ 0xeb ∷ 0x10 ∷ 0x64 ∷ 0x9c ∷ 0xbf ∷ 7 ∷ []) ≡ (ok sample, 7 ∷ [])
unfolding decode
decode-sample = refl

-- An empty string is refused, since no node has been accepted.
decode_nothing : decode 0 (7 ∷ []) ≡ (err qpack_decompression_failed, 7 ∷ [])
unfolding decode
decode_nothing = refl

-- A byte of 32 bits of padding is refused.
decode_padding :
    decode 4 (0xff ∷ 0xff ∷ 0xff ∷ 0xff ∷ [])
    ≡ (err qpack_decompression_failed, 0xff ∷ 0xff ∷ 0xff ∷ 0xff ∷ [])
unfolding decode
decode_padding = refl

-- The letter a leaves 3 bits, so that 16 of the 19 bits of the backslash are left for the bytes
-- behind the first. The byte 0xff of the code is written as 0x07.
encode_backslash : encode (97 ∷ 92 ∷ []) ≡ 0x1f ∷ 0x07 ∷ 0xf0 ∷ []
unfolding encode
encode_backslash = refl

-- At the start of a byte nothing of it is lost.
backslash-Kept : Kept (92 ∷ []) start
unfolding symbol_encode bnl.Huffman.Encoding.symbol_at
backslash-Kept = (omega arith, refl, tt)

decode-encode_huffman_example :
    decode (length (encode (92 ∷ []))) (encode (92 ∷ []) ++ 7 ∷ []) ≡ (ok (92 ∷ []), 7 ∷ [])
decode-encode_huffman_example =
    decode-encode_huffman (92 ∷ []) (7 ∷ []) backslash-Kept (omega arith)

decode-encode-Printable_example :
    decode (length (encode (49 ∷ 48 ∷ []))) (encode (49 ∷ 48 ∷ []) ++ 7 ∷ [])
    ≡ (ok (49 ∷ 48 ∷ []), 7 ∷ [])
decode-encode-Printable_example =
    decode-encode-Printable (49 ∷ 48 ∷ []) (7 ∷ [])
      (
        (omega arith, omega arith, λ e. omega arith),
        ((omega arith, omega arith, λ e. omega arith), tt),
      )
      (omega arith)

length-encode_huffman_example : length (encode sample) ≡ encoded_size sample
length-encode_huffman_example = length-encode_huffman sample
