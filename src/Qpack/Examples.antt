-- ===== src/Qpack/Examples.antt =====
-- Runs of the QPACK codec, and its theorems at concrete inputs.
use bnl.Prelude.{◌+◌, ◌*◌, ◌≡◌, refl, arith, true, [], ◌∷◌, ◌++◌, length, some}
use bnl.Prelude.Text.{chars}
use bnl.Error.{ok, err, qpack_decompression_failed}
use bnl.Event.{Header, header_is_lowercase}
use bnl.PrefixInt
use bnl.Qpack.Sample.{sample_hash, age_7, age-Recognised, age-Sendable}
use bnl.Qpack.{Coder, new_coder, encode, encoded_size, decode, header_decode}
use bnl.Qpack.Table.{find_index, find_header_value, header_only, names}
use bnl.Qpack.Table.Agree.{Found, find_index-Found}
use bnl.Qpack.RoundTrip.{decode-encode_header}
use bnl.Qpack.Sizes.{encoded_size-eq-length, header_decode-aliases}

abbrev method_get : Header
method_get = record { name = chars ":method"; value = chars "GET" }

-- The prefix, the reference to the name "age" and a literal.
encode_age : (encode sample_hash age_7 new_coder).0 ≡ 0 ∷ 0 ∷ 0x52 ∷ 1 ∷ 55 ∷ []
unfolding encode find_index names PrefixInt.encode bnl.Literal.encode bnl.Huffman.encoded_size
encode_age = refl

-- The index of ":method: GET" is 17.
header_decode_17 : header_decode (0xd1 ∷ 7 ∷ []) ≡ (ok method_get, 7 ∷ [])
unfolding header_decode find_header_value PrefixInt.decode chars bnl.Qpack.Table.find_type
header_decode_17 = refl

-- The 'S' bit is not set.
header_decode_dynamic :
    header_decode (0x91 ∷ 7 ∷ []) ≡ (err qpack_decompression_failed, 0x91 ∷ 7 ∷ [])
unfolding header_decode bnl.Qpack.Table.find_type
header_decode_dynamic = refl

find_index-Found_example : Found age_7 (find_index sample_hash age_7)
find_index-Found_example = find_index-Found sample_hash age_7 age-Recognised

decode-encode_header_example :
    decode (new_coder, (encode sample_hash age_7 new_coder).0 ++ 7 ∷ [])
    ≡ (ok age_7, ((encode sample_hash age_7 new_coder).1, 7 ∷ []))
decode-encode_header_example =
    decode-encode_header sample_hash age_7 new_coder (7 ∷ []) age-Sendable

age-lowercase : header_is_lowercase age_7 ≡ true
unfolding header_is_lowercase
age-lowercase = refl

encoded_size-eq-length_example :
    encoded_size sample_hash age_7 new_coder ≡ ok (length (encode sample_hash age_7 new_coder).0)
encoded_size-eq-length_example = encoded_size-eq-length sample_hash age_7 new_coder age-lowercase

found_17 : find_header_value 17 ≡ some method_get
unfolding find_header_value chars
found_17 = refl

-- The index 273 is not in the table.
header_decode-aliases_example :
    header_decode (PrefixInt.encode 0xc0 (1 * 256 + 17) 6 ++ 7 ∷ []) ≡ (ok method_get, 7 ∷ [])
header_decode-aliases_example =
    header_decode-aliases 1 17 method_get (7 ∷ []) (omega arith) found_17 (omega arith)
