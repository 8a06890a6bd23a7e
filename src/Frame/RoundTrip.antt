-- ===== src/Frame/RoundTrip.antt =====
-- `frame::decode` after `frame::encode`.
use bnl.Prelude.{
  ℕ, ◌+◌, ◌^◌, ◌<◌, ◌≡◌, refl, arith, List, [], ◌∷◌, ◌++◌, length, length-append, inl, inr, ap,
  append_assoc, some, IsByte, bit_and, ◌/◌,
}
use bnl.Error.{ok, tried}
use bnl.Settings.{Settings, array}
use bnl.Frame.{
  Frame, FrameType, Priority, PriorityType, request, push, placeholder, current, data_frame,
  type_value, frame_type, to_type, to_priority,
}
use bnl.Frame.Write.{
  settings_size, settings_encode, payload_size, payload_encode, encode, priority_byte,
}
use bnl.Frame.Read.{priority_decode, payload_decode, decode_single, decode}
use bnl.Frame.Sizes.{settings_cases, type_bytes}
use bnl.Varint
use bnl.Varint.Encode.{encode-Encoded}
use bnl.Varint.RoundTrip.{decode-encode as read-written}
use bnl.Frame.SettingsLoop.{settings_decode-encode}

pub to_type-type_value : (t : FrameType) → to_type (type_value t) ≡ some t
unfolding to_type
to_type-type_value FrameType.data_type = refl
to_type-type_value _ = refl

-- The values of the fields that the types of the source allow, and sizes whose sum with that of a
-- variable-length integer is below 2^64.
abbrev pub Fits : Frame → Type 0
Fits (Frame.priority p) = IsByte p.weight
Fits (Frame.push_promise id size) = size + 8 < 2 ^ 64
Fits _ = Unit {0}

-- Both types of a PRIORITY frame are read back from their byte.
priority_byte_types :
    (p : Priority) (a b : PriorityType)
    → p.prioritized_element_type ≡ a
    → p.element_dependency_type ≡ b
    → (to_priority (priority_byte p / 2 ^ 6) ≡ a)
      × (to_priority (bit_and (priority_byte p / 2 ^ 4) 0x03) ≡ b)
unfolding priority_byte
priority_byte_types p request request e d = rw (e, d) (refl, refl)
priority_byte_types p push request e d = rw (e, d) (refl, refl)
priority_byte_types p placeholder request e d = rw (e, d) (refl, refl)
priority_byte_types p current request e d = rw (e, d) (refl, refl)
priority_byte_types p _ _ e d = rw (e, d) (refl, refl)

-- A payload that is one variable-length integer.
varint_read :
    (id n : ℕ) (bs rest : List ℕ)
    → Varint.encoded_size id ≡ ok n
    → Varint.encode id ≡ ok bs
    → (Varint.decode (bs ++ rest) ≡ (ok id, rest)) × (n ≡ length bs)
varint_read id n bs rest s e =
    let z = (encode-Encoded id bs e).size in (read-written id bs rest e, cc)

priority_read :
    (p : Priority) (is ds rest : List ℕ)
    → Varint.encode p.prioritized_element_id ≡ ok is
    → Varint.encode p.element_dependency_id ≡ ok ds
    → priority_decode (priority_byte p ∷ (is ++ (ds ++ (p.weight ∷ rest))))
      ≡ (ok (Frame.priority p), rest)
unfolding priority_decode
priority_read p is ds rest i d =
    let types =
      priority_byte_types p p.prioritized_element_type p.element_dependency_type refl refl in
    rw (
      read-written _ is (ds ++ (p.weight ∷ rest)) i,
      read-written _ ds (p.weight ∷ rest) d,
      types.0,
      types.1,
    )

priority_payload :
    (p : Priority) (n : ℕ) (is ds bs rest : List ℕ)
    → Varint.encode p.prioritized_element_id ≡ ok is
    → Varint.encode p.element_dependency_id ≡ ok ds
    → payload_size (Frame.priority p) ≡ ok n
    → priority_byte p ∷ (is ++ (ds ++ (p.weight ∷ []))) ≡ bs
    → payload_decode (some FrameType.priority) n (bs ++ rest)
      ≡ (ok (Frame.priority p, length bs), rest)
unfolding payload_size payload_decode
priority_payload p n is ds bs rest i d s w =
    let start : bs ++ rest ≡ priority_byte p ∷ (is ++ (ds ++ (p.weight ∷ rest))) =
      rw (← w, append_assoc, append_assoc) refl in
    let len : length bs ≡ 2 + length is + length ds = omega (
      arith,
      ap length w,
      length-append is (ds ++ (p.weight ∷ [])),
      length-append ds (p.weight ∷ []),
    ) in
    rw (start, priority_read p is ds rest i d)
      (ground (arith, (encode-Encoded _ is i).size, (encode-Encoded _ ds d).size))

settings_payload :
    (x : Settings) (n : ℕ) (bs rest : List ℕ)
    → settings_size (array x) ≡ ok n
    → settings_encode (array x) ≡ ok bs
    → payload_decode (some FrameType.settings) n (bs ++ rest)
      ≡ (ok (Frame.settings x, length bs), rest)
unfolding payload_decode
settings_payload x n bs rest s e = elim (settings_cases (array x)) [
  | inl (cs, c, z) ↦
      let len : length bs ≡ n = cc in rw (settings_decode-encode x n bs rest e len) (rw len)
  | inr (c, z) ↦ cc
]

payload_read :
    (f : Frame) (n : ℕ) (bs rest : List ℕ)
    → Fits f
    → payload_size f ≡ ok n
    → payload_encode f ≡ ok bs
    → payload_decode (some (frame_type f)) n (bs ++ rest) ≡ (ok (f, length bs), rest)
unfolding payload_size payload_encode payload_decode
payload_read (data_frame size) n bs rest h s e = ground arith
payload_read (Frame.headers size) n bs rest h s e = ground arith
payload_read (Frame.priority p) n bs rest h s e =
    let (is, i, e1) = tried (Varint.encode p.prioritized_element_id) _ e in
    let (ds, d, e2) = tried (Varint.encode p.element_dependency_id) _ e1 in
    priority_payload p n is ds bs rest i d s (cc)
payload_read (Frame.cancel_push id) n bs rest h s e =
    let (d, l) = varint_read id n bs rest s e in rw (d, l)
payload_read (Frame.settings x) n bs rest h s e = settings_payload x n bs rest s e
payload_read (Frame.push_promise id size) n bs rest h s e =
    let z = encode-Encoded id bs e in
    rw (read-written id bs rest e) (ground (arith, length-append bs rest, z.size, z.at_most_eight))
payload_read (Frame.goaway id) n bs rest h s e =
    let (d, l) = varint_read id n bs rest s e in rw (d, l)
payload_read (Frame.max_push_id id) n bs rest h s e =
    let (d, l) = varint_read id n bs rest s e in rw (d, l)
payload_read (Frame.duplicate_push id) n bs rest h s e =
    let (d, l) = varint_read id n bs rest s e in rw (d, l)

decode_single_parts :
    (f : Frame) (n : ℕ) (ns ps rest : List ℕ)
    → Fits f
    → payload_size f ≡ ok n
    → Varint.encode n ≡ ok ns
    → payload_encode f ≡ ok ps
    → decode_single (type_value (frame_type f) ∷ (ns ++ (ps ++ rest))) ≡ (ok f, rest)
unfolding decode_single
decode_single_parts f n ns ps rest h s m p =
    rw
      (
        read-written (type_value (frame_type f)) _ (ns ++ (ps ++ rest))
            (type_bytes (frame_type f)).0,
        read-written n ns (ps ++ rest) m,
        to_type-type_value (frame_type f),
        payload_read f n ps rest h s p,
      )
      (ground (arith, length-append ps rest))

-- The parts of an encoded frame.
pub encode_parts :
    (f : Frame) (bs : List ℕ)
    → encode f ≡ ok bs
    → (n : ℕ) × (ns : List ℕ) × (ps : List ℕ) × (payload_size f ≡ ok n)
      × (Varint.encode n ≡ ok ns)
      × (payload_encode f ≡ ok ps)
      × (type_value (frame_type f) ∷ (ns ++ ps) ≡ bs)
unfolding encode
encode_parts f bs e =
    let (n, s, e1) = tried (payload_size f) _ e in
    let e2 = rw (type_bytes (frame_type f)).0 at e1 in
    let (ns, m, e3) = tried (Varint.encode n) _ e2 in
    let (ps, p, e4) = tried (payload_encode f) _ e3 in (n, ns, ps, s, m, p, cc)

decode_single-encode :
    (f : Frame) (bs rest : List ℕ)
    → Fits f
    → encode f ≡ ok bs
    → decode_single (bs ++ rest) ≡ (ok f, rest)
decode_single-encode f bs rest h e =
    let (n, ns, ps, s, m, p, w) = encode_parts f bs e in
    rw (← w, append_assoc) (decode_single_parts f n ns ps rest h s m p)

-- A frame that `encode` wrote is read back, and whatever follows it is left. Sizes of a
-- PUSH_PROMISE frame are below 2^64 - 8, the weight of a PRIORITY frame is a byte.
pub decode-encode_frame :
    (f : Frame) (bs rest : List ℕ) → Fits f → encode f ≡ ok bs → decode (bs ++ rest) ≡ (ok f, rest)
unfolding decode
decode-encode_frame f bs rest h e = ground (arith, decode_single-encode f bs rest h e)
