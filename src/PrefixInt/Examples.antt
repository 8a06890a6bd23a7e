-- ===== src/PrefixInt/Examples.antt =====
-- Runs of the prefixed integers.
use bnl.Prelude.{ℕ, ◌+◌, ◌^◌, ◌≤◌, ◌≡◌, refl, arith, [], ◌∷◌, ◌++◌}
use bnl.PrefixInt.{encode, decode, encoded_size}
use bnl.Error.{ok}
use bnl.PrefixInt.RoundTrip.{decode-encode_prefix, decode_wraps}

-- The samples of RFC 7541, C.1.
encode_1337 : encode 0 1337 5 ≡ 31 ∷ 154 ∷ 10 ∷ []
unfolding encode
encode_1337 = refl

size_1337 : encoded_size 1337 5 ≡ 3
unfolding encoded_size
size_1337 = refl

decode_1337 : decode 5 (31 ∷ 154 ∷ 10 ∷ 7 ∷ []) ≡ (ok 1337, 7 ∷ [])
unfolding decode
decode_1337 = refl

decode-encode_prefix_example : decode 5 (encode 0xe0 1337 5 ++ 7 ∷ []) ≡ (ok 1337, 7 ∷ [])
decode-encode_prefix_example =
    decode-encode_prefix 5 0xe0 1337 (7 ∷ []) (omega arith) (omega arith) (omega arith)

-- 2^32 + 31 is read as 31.
decode_wraps_example :
    (wrong : ℕ) × (decode 5 (encode 0 (2 ^ 32 + 31) 5 ++ []) ≡ (ok wrong, []))
    × (wrong + 2 ^ 32 ≤ 2 ^ 32 + 31)
decode_wraps_example =
    decode_wraps 5 0 (2 ^ 32 + 31) [] (omega arith) (omega arith) (omega arith) (omega arith)
