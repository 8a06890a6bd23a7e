-- ===== src/Frame/Sizes.antt =====
-- `encoded_size` against what `encode` writes.
use bnl.Prelude.{
  ℕ, ◌+◌, ◌%◌, ◌^◌, ◌<◌, ◌≡◌, refl, arith, List, [], ◌∷◌, ◌++◌, length, length-append, Bool-cases,
  inl, inr, ap, ◌∙◌, ◌⊎◌,
}
use bnl.Error.{Result, ok, err, varint_overflow, stuck, ◌>>=◌}
use bnl.Settings.{array}
use bnl.Frame.{FrameType, Frame, data_frame, type_value, frame_type}
use bnl.Frame.Write.{
  settings_size, settings_encode, payload_size, payload_encode, encoded_size, encode,
  written_payload_size, is_skipped, priority_byte, encode_buffer,
}
use bnl.Varint
use bnl.Varint.{written_to}
use bnl.Varint.Encode.{encode_cases, encode_small, encoded_size_small, written_to-length}

abbrev pub measure : Result (List ℕ) → Result ℕ
measure m = m >>= λ bs. ok (length bs)

type_value-lt : (t : FrameType) → type_value t < 0x40
type_value-lt FrameType.data_type = omega arith
type_value-lt _ = omega arith

pub type_bytes :
    (t : FrameType)
    → (Varint.encode (type_value t) ≡ ok (type_value t ∷ []))
      × (Varint.encoded_size (type_value t) ≡ ok 1)
type_bytes t = (encode_small _ (type_value-lt t), encoded_size_small _ (type_value-lt t))

-- The sizes and the bytes of the settings, which fail together.
pub settings_cases :
    (ps : List (ℕ × ℕ))
    → ((bs : List ℕ) × (settings_encode ps ≡ ok bs) × (settings_size ps ≡ ok (length bs)))
      ⊎ ((settings_encode ps ≡ err varint_overflow) × (settings_size ps ≡ err varint_overflow))
unfolding settings_encode settings_size
settings_cases [] = inl ([], refl, refl)
settings_cases ((id, value) ∷ ps) = elim (Bool-cases (is_skipped id value)) [
  | inl e ↦ rw e (settings_cases ps)
  | inr e ↦ rw e (elim (encode_cases id) [
    | inr (i, i', h) ↦ inr (rw i, rw i')
    | inl (is, i, i', h) ↦ elim (encode_cases value) [
      | inr (v, v', k) ↦ inr (rw (i, v), rw (i', v'))
      | inl (vs, v, v', k) ↦ elim (settings_cases ps) [
        | inr (r, r') ↦ inr (rw (i, v, r), rw (i', v', r'))
        | inl (bs, r, r') ↦ inl (
          is ++ (vs ++ bs),
          rw (i, v, r),
          rw (i', v', r') (ap ok (omega (arith, length-append is (vs ++ bs), length-append vs bs))),
        )
      ]
    ]
  ])
]

-- Where the payload has a size its bytes can be written, and there are as many as announced.
abbrev pub PayloadCases : Frame → Type 0
PayloadCases f =
    ((n : ℕ) × (bs : List ℕ) × (payload_size f ≡ ok n)
      × (payload_encode f ≡ ok bs)
      × (written_payload_size f n ≡ ok (length bs)))
    ⊎ (payload_size f ≡ err varint_overflow)

varint_payload :
    (f : Frame) (id : ℕ)
    → payload_size f ≡ Varint.encoded_size id
    → payload_encode f ≡ Varint.encode id
    → ((n : ℕ) → written_payload_size f n ≡ ok n)
    → PayloadCases f
varint_payload f id s e w = elim (encode_cases id) [
  | inl (bs, i, i', h) ↦ inl (length bs, bs, s ∙ i', e ∙ i, w (length bs))
  | inr (i, i', h) ↦ inr (s ∙ i')
]

pub payload_cases : (f : Frame) → PayloadCases f
unfolding payload_size payload_encode written_payload_size
payload_cases (data_frame size) = inl (size, [], refl, refl, refl)
payload_cases (Frame.headers size) = inl (size, [], refl, refl, refl)
payload_cases (Frame.priority p) = elim (encode_cases p.prioritized_element_id) [
  | inr (i, i', h) ↦ inr (rw i')
  | inl (is, i, i', h) ↦ elim (encode_cases p.element_dependency_id) [
    | inr (d, d', k) ↦ inr (rw (i', d'))
    | inl (ds, d, d', k) ↦ inl (
      1 + length is + length ds + 1,
      priority_byte p ∷ (is ++ (ds ++ (p.weight ∷ []))),
      rw (i', d'),
      rw (i, d),
      ap ok (
          omega
            (arith, length-append is (ds ++ (p.weight ∷ [])), length-append ds (p.weight ∷ []))),
    )
  ]
]
payload_cases (Frame.cancel_push id) =
    varint_payload (Frame.cancel_push id) id refl refl (λ n. refl)
payload_cases (Frame.settings s) = elim (settings_cases (array s)) [
  | inl (bs, e, z) ↦ inl (length bs, bs, z, e, refl)
  | inr (e, z) ↦ inr z
]
payload_cases (Frame.push_promise id size) = elim (encode_cases id) [
  | inl (bs, i, i', h) ↦ inl ((length bs + size) % 2 ^ 64, bs, rw i', i, i')
  | inr (i, i', h) ↦ inr (rw i')
]
payload_cases (Frame.goaway id) = varint_payload (Frame.goaway id) id refl refl (λ n. refl)
payload_cases (Frame.max_push_id id) =
    varint_payload (Frame.max_push_id id) id refl refl (λ n. refl)
payload_cases (Frame.duplicate_push id) =
    varint_payload (Frame.duplicate_push id) id refl refl (λ n. refl)

-- `encoded_size` is the number of bytes that `encode` writes, and fails exactly where `encode`
-- fails, with the same error: the allocated buffer is never overrun.
pub encoded_size-eq-measure : (f : Frame) → encoded_size f ≡ measure (encode f)
unfolding encoded_size encode
encoded_size-eq-measure f = elim (payload_cases f) [
  | inr e ↦ rw e
  | inl (n, bs, e, b, w) ↦ elim (encode_cases n) [
    | inr (i, i', h) ↦
        rw (e, w, (type_bytes (frame_type f)).0, (type_bytes (frame_type f)).1, i, i')
    | inl (cs, i, i', h) ↦
        rw (e, w, (type_bytes (frame_type f)).0, (type_bytes (frame_type f)).1, i, i', b)
          (ap ok (omega (arith, length-append cs bs)))
  ]
]

-- The overload that allocates a buffer returns exactly what `encode` writes, and fails where it
-- fails.
pub encode_buffer-eq-encode_frame : (f : Frame) → encode_buffer f ≡ encode f
unfolding encode_buffer
encode_buffer-eq-encode_frame f = rw encoded_size-eq-measure (filled (encode f))
  where
    filled :
        (m : Result (List ℕ))
        → (measure m >>= λ size. m >>= λ written. ok (written_to size written)) ≡ m
    filled (ok bs) = ap ok (written_to-length bs)
    filled (err e) = refl
    filled stuck = refl
