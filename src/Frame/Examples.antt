-- ===== src/Frame/Examples.antt =====
-- Runs of the frame codec, and its theorems at concrete inputs.
use bnl.Prelude.{ℕ, ◌≡◌, ◌≢◌, refl, arith, List, [], ◌∷◌, ◌++◌, none, some}
use bnl.Error.{ok, err, stuck, malformed_frame}
use bnl.Settings.{default_settings}
use bnl.Frame.{Frame, FrameType, Priority, push, current, to_type, data_frame}
use bnl.Frame.Write.{encode, encoded_size, settings_size, is_skipped}
use bnl.Frame.Read.{decode, peek}
use bnl.Frame.Sizes.{measure, encoded_size-eq-measure}
use bnl.Frame.RoundTrip.{decode-encode_frame}
use bnl.Frame.Peek.{peek-encode, peek-ne-stuck, peek-decode-differ, decode-unknown}
use bnl.Frame.Whole.{Answers, decode-Answers}
use bnl.Varint
use bnl.Varint.Encode.{encode_small}

abbrev weighted : Priority
weighted = record {
  prioritized_element_type = push;
  element_dependency_type = current;
  prioritized_element_id = 16;
  element_dependency_id = 5;
  weight = 43;
}

abbrev priority_bytes : List ℕ
priority_bytes = 0x02 ∷ 0x04 ∷ 0x70 ∷ 0x10 ∷ 0x05 ∷ 0x2b ∷ []

encode_priority : encode (Frame.priority weighted) ≡ ok priority_bytes
unfolding encode Varint.encode Varint.encoded_size
encode_priority = refl

-- The default settings take 15 bytes, as in bnl/http3/test/frame.cpp.
encoded_size_settings : encoded_size (Frame.settings default_settings) ≡ ok 15
unfolding encoded_size settings_size is_skipped Varint.encoded_size
encoded_size_settings = refl

decode_wrong_size :
    decode (0x03 ∷ 0x02 ∷ 0x05 ∷ []) ≡ (err malformed_frame, 0x03 ∷ 0x02 ∷ 0x05 ∷ [])
unfolding decode to_type Varint.decode
decode_wrong_size = refl

-- 0x21 is a reserved type.
encode_reserved : Varint.encode 0x21 ≡ ok (0x21 ∷ [])
encode_reserved = encode_small 0x21 (omega arith)

encode_one : Varint.encode 1 ≡ ok (1 ∷ [])
encode_one = encode_small 1 (omega arith)

reserved_unknown : to_type 0x21 ≡ none
unfolding to_type
reserved_unknown = refl

headers_one : to_type 1 ≡ some FrameType.headers
unfolding to_type
headers_one = refl

abbrev data_bytes : List ℕ
data_bytes = 0x00 ∷ 0x05 ∷ []

encode_data : encode (data_frame 5) ≡ ok data_bytes
unfolding encode Varint.encode Varint.encoded_size
encode_data = refl

encoded_size-eq-measure_example :
    encoded_size (Frame.priority weighted) ≡ measure (encode (Frame.priority weighted))
encoded_size-eq-measure_example = encoded_size-eq-measure (Frame.priority weighted)

decode-encode_frame_example :
    decode (priority_bytes ++ 7 ∷ []) ≡ (ok (Frame.priority weighted), 7 ∷ [])
decode-encode_frame_example =
    decode-encode_frame (Frame.priority weighted) priority_bytes (7 ∷ []) (omega arith)
      encode_priority

peek-encode_example : peek (priority_bytes ++ 7 ∷ []) ≡ ok FrameType.priority
peek-encode_example = peek-encode (Frame.priority weighted) priority_bytes (7 ∷ []) encode_priority

peek-ne-stuck_example : peek (0x21 ∷ 0x40 ∷ []) ≢ stuck
peek-ne-stuck_example = peek-ne-stuck (0x21 ∷ 0x40 ∷ []) (omega arith)

decode-unknown_example : decode (0x21 ∷ 1 ∷ 0xff ∷ data_bytes) ≡ decode data_bytes
decode-unknown_example =
    decode-unknown 0x21 1 (0x21 ∷ []) (1 ∷ []) (0xff ∷ []) data_bytes reserved_unknown
      encode_reserved encode_one refl (omega arith) (omega arith)

-- A reserved frame of one byte before a DATA frame: `peek` answers HEADERS, `decode` DATA.
peek-decode-differ_example :
    (peek (0x21 ∷ 1 ∷ 0xff ∷ data_bytes) ≡ ok FrameType.headers)
    × (decode (0x21 ∷ 1 ∷ 0xff ∷ data_bytes) ≡ (ok (data_frame 5), []))
peek-decode-differ_example =
    peek-decode-differ 0x21 1 (0x21 ∷ []) (1 ∷ []) (0xff ∷ []) data_bytes [] FrameType.headers
      (data_frame 5) reserved_unknown encode_reserved encode_one refl headers_one (omega arith)
      (omega arith) (omega arith) tt encode_data

-- A reserved frame of one byte, a GOAWAY frame, and a byte behind it.
abbrev skipped_goaway : List ℕ
skipped_goaway = 0x21 ∷ 1 ∷ 0xff ∷ 0x07 ∷ 1 ∷ 5 ∷ 9 ∷ []

decode-Answers_example : Answers skipped_goaway (ok (Frame.goaway 5), 9 ∷ [])
unfolding decode to_type Varint.decode
decode-Answers_example = decode-Answers skipped_goaway (
  omega arith,
  (omega arith, (omega arith, (omega arith, (omega arith, (omega arith, (omega arith, tt)))))),
)
