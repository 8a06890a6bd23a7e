-- ===== src/Frame/Write.antt =====
-- bnl/http3/src/codec/frame/encode.cpp.
use bnl.Prelude.{
  ℕ, Bool, ◌+◌, ◌*◌, ◌%◌, ◌^◌, ◌&&◌, List, [], ◌∷◌, ◌++◌, ◌==◌, if◌then◌else◌, bit_and, bit_or,
}
use bnl.Error.{Result, ok, ◌>>=◌}
use bnl.Settings.{array, num_placeholders_id}
use bnl.Frame.{Frame, Priority, priority_value, type_value, frame_type, data_frame}
use bnl.Varint
use bnl.Varint.{written_to}

-- The body of the loop over `settings.array()` is skipped for this pair.
unfoldable pub is_skipped : ℕ → ℕ → Bool
is_skipped id value = id == num_placeholders_id && value == 0

unfoldable pub settings_size : List (ℕ × ℕ) → Result ℕ
settings_size [] = ok 0
settings_size ((id, value) ∷ rest) =
    let rest_size = settings_size rest in
    if is_skipped id value then rest_size else do
      id_size ← Varint.encoded_size id
      value_size ← Varint.encoded_size value
      size ← rest_size
      ok (id_size + value_size + size)

-- The sum in the PUSH_PROMISE case is one of uint64_t; the other sums stay below 100.
unfoldable pub payload_size : Frame → Result ℕ
unfolding settings_size
payload_size (data_frame size) = ok size
payload_size (Frame.headers size) = ok size
payload_size (Frame.priority p) = do
  prioritized ← Varint.encoded_size p.prioritized_element_id
  dependency ← Varint.encoded_size p.element_dependency_id
  ok (1 + prioritized + dependency + 1)
payload_size (Frame.cancel_push id) = Varint.encoded_size id
payload_size (Frame.settings s) = settings_size (array s)
payload_size (Frame.push_promise id size) = do
  id_size ← Varint.encoded_size id
  ok ((id_size + size) % 2 ^ 64)
payload_size (Frame.goaway id) = Varint.encoded_size id
payload_size (Frame.max_push_id id) = Varint.encoded_size id
payload_size (Frame.duplicate_push id) = Varint.encoded_size id

-- `payload_encoded_size` of `frame::encoded_size`: what `encode` itself writes of the payload.
unfoldable pub written_payload_size : Frame → ℕ → Result ℕ
written_payload_size (data_frame size) payload = ok 0
written_payload_size (Frame.headers size) payload = ok 0
written_payload_size (Frame.push_promise id size) payload = Varint.encoded_size id
written_payload_size f payload = ok payload

unfoldable pub encoded_size : Frame → Result ℕ
unfolding payload_size written_payload_size
encoded_size f = do
  payload ← payload_size f
  payload_encoded ← written_payload_size f payload
  type_size ← Varint.encoded_size (type_value (frame_type f))
  size_size ← Varint.encoded_size payload
  ok (type_size + size_size + payload_encoded)

-- The byte of a PRIORITY frame that holds both types.
unfoldable pub priority_byte : Priority → ℕ
priority_byte p =
    let first = bit_or 0 (priority_value p.prioritized_element_type * 2 ^ 6 % 2 ^ 8) in
    let second = bit_or first (priority_value p.element_dependency_type * 2 ^ 4 % 2 ^ 8) in
    bit_and second 0xf0

unfoldable pub settings_encode : List (ℕ × ℕ) → Result (List ℕ)
settings_encode [] = ok []
settings_encode ((id, value) ∷ rest) =
    let rest_bytes = settings_encode rest in
    if is_skipped id value then rest_bytes else do
      id_bytes ← Varint.encode id
      value_bytes ← Varint.encode value
      bytes ← rest_bytes
      ok (id_bytes ++ (value_bytes ++ bytes))

-- The `switch` of `encode`.
unfoldable pub payload_encode : Frame → Result (List ℕ)
unfolding priority_byte settings_encode
payload_encode (data_frame size) = ok []
payload_encode (Frame.headers size) = ok []
payload_encode (Frame.priority p) = do
  prioritized ← Varint.encode p.prioritized_element_id
  dependency ← Varint.encode p.element_dependency_id
  ok (priority_byte p ∷ (prioritized ++ (dependency ++ (p.weight ∷ []))))
payload_encode (Frame.cancel_push id) = Varint.encode id
payload_encode (Frame.settings s) = settings_encode (array s)
payload_encode (Frame.push_promise id size) = Varint.encode id
payload_encode (Frame.goaway id) = Varint.encode id
payload_encode (Frame.max_push_id id) = Varint.encode id
payload_encode (Frame.duplicate_push id) = Varint.encode id

-- The bytes that are written at `dest`, in order.
unfoldable pub encode : Frame → Result (List ℕ)
unfolding payload_size payload_encode
encode f = do
  payload ← payload_size f
  type_bytes ← Varint.encode (type_value (frame_type f))
  size_bytes ← Varint.encode payload
  payload_bytes ← payload_encode f
  ok (type_bytes ++ (size_bytes ++ payload_bytes))

-- The overload that allocates the buffer.
unfoldable pub encode_buffer : Frame → Result (List ℕ)
encode_buffer f = do size ← encoded_size f; written ← encode f; ok (written_to size written)
