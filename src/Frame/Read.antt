-- ===== src/Frame/Read.antt =====
-- bnl/http3/src/codec/frame/decode.cpp.
use bnl.Prelude.{
  ℕ, zero, suc, ◌+◌, ◌-◌, ◌/◌, ◌^◌, true, false, Option, none, some, List, [], ◌∷◌, length, drop,
  ltb, ◌==◌, if◌then◌else◌, bit_and,
}
use bnl.Error.{Result, ok, err, stuck, incomplete, delegate, malformed_frame, is_delegate}
use bnl.Reader.{Reader, ◌>>=◌, pure}
use bnl.Settings.{
  Settings, default_settings, max_header_list_size_id, num_placeholders_id,
  qpack_max_table_capacity_id, qpack_blocked_streams_id,
}
use bnl.Frame.{Frame, FrameType, to_type, to_priority, data_frame}
use bnl.Varint

-- `peek` reads through a lookahead and leaves the sequence alone.
unfoldable pub peek_loop : ℕ → List ℕ → Result FrameType
peek_loop zero s = stuck
peek_loop (suc fuel) s = elim (Varint.decode s).0 [
  | ok type ↦ elim (to_type type) [ some t ↦ ok t | none ↦ peek_loop fuel (Varint.decode s).1 ]
  | err e ↦ err e
  | stuck ↦ stuck
]

unfoldable pub peek : List ℕ → Result FrameType
unfolding peek_loop
peek encoded = peek_loop (suc (length encoded)) encoded

unfoldable pub uint8_decode : Reader ℕ
uint8_decode [] = (err incomplete, [])
uint8_decode (b ∷ s) = (ok b, s)

-- The `switch (id)` over the settings; an unknown one is ignored.
unfoldable pub apply_setting : ℕ → ℕ → Settings → Settings
apply_setting id value s =
    if id == max_header_list_size_id
    then record s { max_header_list_size = value }
    else if id == num_placeholders_id
    then record s { num_placeholders = value }
    else if id == qpack_max_table_capacity_id
    then record s { qpack_max_table_capacity = value }
    else if id == qpack_blocked_streams_id
    then record s { qpack_blocked_streams = value }
    else s

-- `while (settings_encoded_size < payload_encoded_size)`.
unfoldable pub settings_loop : ℕ → ℕ → ℕ → Settings → Reader Settings
unfolding apply_setting
settings_loop zero encoded_size payload settings encoded = (stuck, encoded)
settings_loop (suc fuel) encoded_size payload settings encoded = elim (ltb encoded_size payload) [
  | false ↦ (ok settings, encoded)
  | true ↦
      (do
        id ← Varint.decode
        value ← Varint.decode
        λ rest.
            settings_loop fuel (encoded_size + (length encoded - length rest)) payload
              (apply_setting id value settings) rest)
        encoded
]

unfoldable pub settings_decode : ℕ → Reader Settings
unfolding settings_loop
settings_decode payload encoded =
    settings_loop (suc (length encoded)) 0 payload default_settings encoded

unfoldable pub priority_decode : Reader Frame
unfolding uint8_decode
priority_decode = do
  byte ← uint8_decode
  prioritized ← Varint.decode
  dependency ← Varint.decode
  weight ← uint8_decode
  pure (
      Frame.priority (record {
        prioritized_element_type = to_priority (byte / 2 ^ 6);
        element_dependency_type = to_priority (bit_and (byte / 2 ^ 4) 0x03);
        prioritized_element_id = prioritized;
        element_dependency_id = dependency;
        weight = weight;
      }))

-- A PUSH_PROMISE frame, with the size that the payload is then taken to have.
unfoldable pub push_promise_decode : ℕ → Reader (Frame × ℕ)
push_promise_decode payload encoded =
    (do
      id ← Varint.decode
      λ rest.
          let varint_size = length encoded - length rest in
          if ltb payload varint_size
          then (ok (Frame.push_promise id 0, payload), rest)
          else (ok (Frame.push_promise id (payload - varint_size), varint_size), rest))
      encoded

-- The `default` case: an unknown frame is consumed, and the caller goes on to the next one.
unfoldable pub skip_unknown : ℕ → Reader (Frame × ℕ)
skip_unknown payload encoded =
    if ltb (length encoded) payload
    then (err incomplete, encoded)
    else (err delegate, drop payload encoded)

-- The lambda `payload_decode`: the frame, and `payload_encoded_size` as it leaves it.
unfoldable pub payload_decode : Option FrameType → ℕ → Reader (Frame × ℕ)
unfolding priority_decode settings_decode push_promise_decode skip_unknown
payload_decode (some FrameType.data_type) payload = pure (data_frame payload, 0)
payload_decode (some FrameType.headers) payload = pure (Frame.headers payload, 0)
payload_decode (some FrameType.priority) payload = do frame ← priority_decode; pure (frame, payload)
payload_decode (some FrameType.cancel_push) payload = do
  id ← Varint.decode
  pure (Frame.cancel_push id, payload)
payload_decode (some FrameType.settings) payload = do
  settings ← settings_decode payload
  pure (Frame.settings settings, payload)
payload_decode (some FrameType.push_promise) payload = push_promise_decode payload
payload_decode (some FrameType.goaway) payload = do
  id ← Varint.decode
  pure (Frame.goaway id, payload)
payload_decode (some FrameType.max_push_id) payload = do
  id ← Varint.decode
  pure (Frame.max_push_id id, payload)
payload_decode (some FrameType.duplicate_push) payload = do
  id ← Varint.decode
  pure (Frame.duplicate_push id, payload)
payload_decode none payload = skip_unknown payload

-- The check that the frame took as many bytes as it was announced to have.
unfoldable pub check_size : List ℕ → Frame × ℕ → Reader Frame
check_size before (frame, payload) rest =
    if length before - length rest == payload then (ok frame, rest) else (err malformed_frame, rest)

unfoldable pub decode_single : Reader Frame
unfolding payload_decode check_size
decode_single = do
  type ← Varint.decode
  payload ← Varint.decode
  λ before. (payload_decode (to_type type) payload >>= check_size before) before

-- `frame::decode`: unknown frames are consumed and skipped; after any other error the bytes from
-- the last frame on are left.
unfoldable pub decode_loop : ℕ → Reader Frame
decode_loop zero encoded = (stuck, encoded)
decode_loop (suc fuel) encoded = elim (decode_single encoded).0 [
  | ok frame ↦ (ok frame, (decode_single encoded).1)
  | err e ↦ elim (is_delegate e) [
    | true ↦ decode_loop fuel (decode_single encoded).1
    | false ↦ (err e, encoded)
  ]
  | stuck ↦ (stuck, encoded)
]

unfoldable pub decode : Reader Frame
unfolding decode_loop decode_single
decode encoded = decode_loop (suc (length encoded)) encoded
