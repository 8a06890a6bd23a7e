-- ===== src/Varint/Examples.antt =====
-- Runs of the varint codec, and its theorems at concrete inputs.
use bnl.Prelude.{◌+◌, ◌^◌, ◌≤◌, ◌≡◌, ◌↔◌, refl, [], ◌∷◌}
use bnl.Error.{ok, err, varint_overflow}
use bnl.Varint.{encoded_size, encode, decode}
use bnl.Varint.Bytes.{big_endian, tag}
use bnl.Varint.Encode.{encode-big_endian, encode-fails_iff}
use bnl.Varint.RoundTrip.{decode-encode}

-- The samples of draft-ietf-quic-transport, also used by bnl/http3/test/varint.cpp.
encode_37 : encode 37 ≡ ok (0x25 ∷ [])
unfolding encode
encode_37 = refl

encode_15293 : encode 15293 ≡ ok (0x7b ∷ 0xbd ∷ [])
unfolding encode
encode_15293 = refl

encode_494878333 : encode 494878333 ≡ ok (0x9d ∷ 0x7f ∷ 0x3e ∷ 0x7d ∷ [])
unfolding encode
encode_494878333 = refl

decode_padded : decode (0x40 ∷ 0x25 ∷ 7 ∷ []) ≡ (ok 37, 7 ∷ [])
unfolding decode
decode_padded = refl

encoded_size_15293 : encoded_size 15293 ≡ ok 2
unfolding encoded_size
encoded_size_15293 = refl

encode-big_endian_example : encode 15293 ≡ ok (big_endian 2 (tag 2 + 15293))
encode-big_endian_example = encode-big_endian 15293 2 encoded_size_15293

encode-fails_iff_example : (encode (2 ^ 62) ≡ err varint_overflow) ↔ (2 ^ 62 ≤ 2 ^ 62)
encode-fails_iff_example = encode-fails_iff (2 ^ 62)

decode-encode_example : decode (0x7b ∷ 0xbd ∷ 9 ∷ []) ≡ (ok 15293, 9 ∷ [])
decode-encode_example = decode-encode 15293 (0x7b ∷ 0xbd ∷ []) (9 ∷ []) encode_15293
