-- ===== src/Frame/Peek.antt =====
-- `frame::peek` beside `frame::decode`, also where an unknown frame stands in front.
use bnl.Prelude.{
  ℕ, zero, suc, ◌≤◌, ◌<◌, ◌≡◌, ◌≢◌, refl, arith, List, ◌∷◌, ◌++◌, length, drop-append,
  length-append, ◌∙◌, ◌⊎◌, inl, inr, Option, some, none, IsByte, All, All-append,
}
use bnl.Error.{ok, err, stuck, delegate}
use bnl.Frame.{Frame, FrameType, to_type, frame_type, type_value}
use bnl.Frame.Write.{encode}
use bnl.Frame.Read.{peek_loop, peek, skip_unknown, payload_decode, decode_single, decode}
use bnl.Frame.RoundTrip.{Fits, encode_parts, to_type-type_value, decode-encode_frame}
use bnl.Frame.Safety.{decode-skipped}
use bnl.Frame.Sizes.{type_bytes}
use bnl.Varint
use bnl.Varint.Encode.{encode-Encoded}
use bnl.Varint.Decode.{decode_cases}
use bnl.Varint.RoundTrip.{decode-encode as read-written}

module _ (fuel : ℕ) (s r : List ℕ) (type : ℕ) (read : Varint.decode s ≡ (ok type, r)) where
  pub peek_loop-known : (t : FrameType) → to_type type ≡ some t → peek_loop (suc fuel) s ≡ ok t
  unfolding peek_loop
  peek_loop-known t e = ground arith

  peek_loop-unknown : to_type type ≡ none → peek_loop (suc fuel) s ≡ peek_loop fuel r
  unfolding peek_loop
  peek_loop-unknown e = ground arith

Option-cases {ℓ} : {A : Type ℓ} (o : Option A) → (o ≡ none) ⊎ ((a : A) × (o ≡ some a))
Option-cases none = inl refl
Option-cases (some a) = inr (a, refl)

peek_loop-ends : (fuel : ℕ) (s : List ℕ) → All IsByte s → length s < fuel → peek_loop fuel s ≢ stuck
peek_loop-ends zero s h f = absurd (omega arith)
peek_loop-ends (suc fuel) s h f = elim (decode_cases s h) [
  | inr e ↦ unfold peek_loop in (λ p. ground arith)
  | inl (type, r, e, a, hr, lt) ↦ elim (Option-cases (to_type type)) [
    | inl u ↦ rw (peek_loop-unknown fuel s r type e u) (peek_loop-ends fuel r hr (omega arith))
    | inr (t, k) ↦ rw (peek_loop-known fuel s r type e t k) (λ p. cc)
  ]
]

-- `peek` ends on all bytes.
pub peek-ne-stuck : (s : List ℕ) → All IsByte s → peek s ≢ stuck
unfolding peek
peek-ne-stuck s h = peek_loop-ends (suc (length s)) s h (omega arith)

-- `peek` tells the type of a frame that `encode` wrote.
pub peek-encode :
    (f : Frame) (bs rest : List ℕ) → encode f ≡ ok bs → peek (bs ++ rest) ≡ ok (frame_type f)
unfolding peek
peek-encode f bs rest e =
    let (n, ns, ps, s, m, p, w) = encode_parts f bs e in
    rw (← w) (
      peek_loop-known (length (type_value (frame_type f) ∷ ((ns ++ ps) ++ rest))) _ _
        (type_value (frame_type f))
        (read-written (type_value (frame_type f)) _ ((ns ++ ps) ++ rest)
          (type_bytes (frame_type f)).0)
        (frame_type f) (to_type-type_value (frame_type f)))

skip_unknown-whole :
    (payload rest : List ℕ) → skip_unknown (length payload) (payload ++ rest) ≡ (err delegate, rest)
unfolding skip_unknown
skip_unknown-whole payload rest =
    ground (arith, length-append payload rest, drop-append payload rest)

-- A frame of an unknown type: the bytes of the type and of the length, and the payload.
module _ (type n : ℕ) (ts ns payload rest : List ℕ) (unknown : to_type type ≡ none)
    (type_is : Varint.encode type ≡ ok ts) (length_is : Varint.encode n ≡ ok ns)
    (whole : length payload ≡ n) where
  decode_single-unknown : decode_single (ts ++ (ns ++ (payload ++ rest))) ≡ (err delegate, rest)
  unfolding decode_single payload_decode skip_unknown
  decode_single-unknown =
      rw
        (
          read-written type ts (ns ++ (payload ++ rest)) type_is,
          read-written n ns (payload ++ rest) length_is,
          unknown,
          ← whole,
          skip_unknown-whole payload rest,
        )
        refl

  -- Before any bytes and a whole frame of unknown type in front of them, `decode` answers as if
  -- that frame were not there.
  pub decode-unknown :
      All IsByte payload → All IsByte rest → decode (ts ++ (ns ++ (payload ++ rest))) ≡ decode rest
  decode-unknown hp hr =
      decode-skipped _ rest
        (All-append IsByte ts _ (encode-Encoded type ts type_is).bytes (
          All-append IsByte ns _ (encode-Encoded n ns length_is).bytes
            (All-append IsByte payload rest hp hr)))
        decode_single-unknown

  -- `peek` does not skip it: it goes on with the length of the frame as if that were a type.
  peek-length : (t : FrameType) → to_type n ≡ some t → peek (ts ++ (ns ++ (payload ++ rest))) ≡ ok t
  unfolding peek
  peek-length t e = two_rounds (suc (length (ts ++ (ns ++ (payload ++ rest))))) (
      omega (
        arith,
        length-append ts (ns ++ (payload ++ rest)),
        (encode-Encoded type ts type_is).at_least_one,
      ))
    where
      two_rounds : (fuel : ℕ) → 2 ≤ fuel → peek_loop fuel (ts ++ (ns ++ (payload ++ rest))) ≡ ok t
      two_rounds zero h = absurd (omega arith)
      two_rounds (suc zero) h = absurd (omega arith)
      two_rounds (suc (suc fuel)) h =
          peek_loop-unknown (suc fuel) _ (ns ++ (payload ++ rest)) type
            (read-written type ts (ns ++ (payload ++ rest)) type_is) unknown
          ∙ peek_loop-known fuel _ (payload ++ rest) n
              (read-written n ns (payload ++ rest) length_is) t e

-- Behind an unknown frame whose length is the number of some frame type, `peek` names that type,
-- while `decode` reads the frame that follows. Sizes of a PUSH_PROMISE frame that follows are below
-- 2^64 - 8, the weight of a PRIORITY frame is a byte.
pub peek-decode-differ :
    (type n : ℕ) (ts ns payload bs rest : List ℕ) (t : FrameType) (f : Frame)
    → to_type type ≡ none
    → Varint.encode type ≡ ok ts
    → Varint.encode n ≡ ok ns
    → length payload ≡ n
    → to_type n ≡ some t
    → All IsByte payload
    → All IsByte bs
    → All IsByte rest
    → Fits f
    → encode f ≡ ok bs
    → (peek (ts ++ (ns ++ (payload ++ (bs ++ rest)))) ≡ ok t)
      × (decode (ts ++ (ns ++ (payload ++ (bs ++ rest)))) ≡ (ok f, rest))
peek-decode-differ type n ts ns payload bs rest t f u e m w k hp hb hr fits d = (
  peek-length type n ts ns payload (bs ++ rest) u e m w t k,
  decode-unknown type n ts ns payload (bs ++ rest) u e m w hp (All-append IsByte bs rest hb hr)
      ∙ decode-encode_frame f bs rest fits d,
)
