-- ===== src/Headers/Sending.antt =====
-- A header block that the encoder sends, with the QPACK codec.
use bnl.Prelude.{
  ℕ, zero, suc, ◌+◌, ◌%◌, ◌^◌, ◌<◌, ◌≡◌, refl, ap, ◌∙◌, arith, true, false, List, [], ◌∷◌, ◌++◌,
  append_assoc, append-nil, length, length-append, All, ◌==◌, if◌then◌else◌, inl, inr,
}
use bnl.Error.{Result, ok, stuck, ◌>>=◌}
use bnl.Object.{Op, attempt}
use bnl.Frame.{Frame}
use bnl.Frame.Write
use bnl.Frame.Sizes.{encode_buffer-eq-encode_frame}
use bnl.Varint.Encode.{encode_small, encode_cases}
use bnl.Buffers.{Buffers, size, empty, push, pop}
use bnl.Buffers.View.{view}
use bnl.Event.{Header, header_is_lowercase}
use bnl.PrefixInt.RoundTrip.{encode-keeps_high}
use bnl.Qpack.{Coder, encode as qpack_encode, encode_buffer, instruction_encode, prefix_bytes}
use bnl.Qpack.Codec.{codec}
use bnl.Qpack.Table.{find_index, InstructionType, header_value, header_only, missing, unknown}
use bnl.Qpack.Table.Agree.{Found, find_index-Found}
use bnl.Qpack.FirstByte.{name_head}
use bnl.Qpack.RoundTrip.{Sendable}
use bnl.Qpack.Sizes.{encoded_size-eq-length}
use bnl.Headers.{Encoder, at_idle, at_frame, at_qpack, add, fin, encode, finished}

-- Every header takes a byte at least.
instruction-pos :
    (header : Header) (found : InstructionType × ℕ)
    → Found header found
    → 0 < length (instruction_encode header found)
unfolding instruction_encode
instruction-pos header (header_value, index) f =
    let (head, more, e, q) = encode-keeps_high 6 0xc0 index (omega arith) (omega arith) in
    rw e (omega arith)
instruction-pos header (header_only, index) f =
    let (head, more, e, q) = encode-keeps_high 4 0x50 index (omega arith) (omega arith) in
    rw e (omega arith)
instruction-pos header (missing, index) f =
    let (head, more, e, q) = name_head header.name in rw e (omega arith)
instruction-pos header (unknown, index) f = cc

-- The sizes of a HEADERS frame are below 2^62.
pub headers_frame :
    (n : ℕ) → n < 2 ^ 62 → (frame : List ℕ) × (Write.encode_buffer (Frame.headers n) ≡ ok frame)
unfolding Write.encode Write.payload_size Write.payload_encode
headers_frame n h = elim (encode_cases n) [
  | inl (ns, e, s, a) ↦ (
    1 ∷ (ns ++ []),
    encode_buffer-eq-encode_frame (Frame.headers n) ∙ rw (encode_small 1 (omega arith), e) refl,
  )
  | inr (e, s, l) ↦ absurd (omega arith)
]

module _ (hash : List ℕ → ℕ) where
  -- `add` is called for every header, and then `fin`.
  unfoldable pub add_all : List Header → Op (Encoder (codec hash)) (Unit {0})
  add_all [] e = fin (codec hash) e
  add_all (header ∷ headers) e =
      attempt (add (codec hash) header e).0 (λ u. add_all headers) (add (codec hash) header e).1

  -- `encode` is called until the encoder is finished.
  unfoldable pub transmit : ℕ → Encoder (codec hash) → Result Buffers
  transmit zero e = stuck
  transmit (suc fuel) e =
      let later = transmit fuel (encode (codec hash) e).1 in
      if finished (codec hash) e
      then ok []
      else ((encode (codec hash) e).0 >>= λ buffer. later >>= λ buffers. ok (buffer ∷ buffers))

  -- The buffers of the headers, and the encoder behind them.
  abbrev pub blocks : List Header → Coder → Buffers × Coder
  blocks [] c = ([], c)
  blocks (header ∷ headers) c = (
    (qpack_encode hash header c).0 ∷ (blocks headers (qpack_encode hash header c).1).0,
    (blocks headers (qpack_encode hash header c).1).1,
  )

  pub block-pos :
      (header : Header) (c : Coder)
      → Sendable hash header
      → 0 < length (qpack_encode hash header c).0
  unfolding qpack_encode
  block-pos header c s =
      let p =
        instruction-pos header (find_index hash header)
          (find_index-Found hash header s.recognised) in
      omega (
        arith,
        length-append (prefix_bytes c.state) (instruction_encode header (find_index hash header)),
      )

  pub encode_count :
      (header : Header) (c : Coder)
      → (qpack_encode hash header c).1.count
        ≡ (c.count + length (qpack_encode hash header c).0) % 2 ^ 64
  unfolding qpack_encode
  encode_count header c = refl

  -- The encoder.
  add_lem :
      (header : Header) (bs : Buffers) (c : Coder)
      → header_is_lowercase header ≡ true
      → add (codec hash) header (record { state = at_idle; buffers = bs; qpack = c }) ≡ (
        ok tt,
        record {
          state = at_idle;
          buffers = bs ++ ((qpack_encode hash header c).0 ∷ []);
          qpack = (qpack_encode hash header c).1;
        },
      )
  unfolding add encode_buffer push
  add_lem header bs c l = rw (encoded_size-eq-length hash header c l) refl

  pub add_all_lem :
      (headers : List Header) (bs : Buffers) (c : Coder)
      → All (Sendable hash) headers
      → add_all headers (record { state = at_idle; buffers = bs; qpack = c }) ≡ (
        ok tt,
        record {
          state = at_frame;
          buffers = bs ++ (blocks headers c).0;
          qpack = (blocks headers c).1;
        },
      )
  unfolding add_all fin
  add_all_lem [] bs c a = rw (append-nil bs) refl
  add_all_lem (header ∷ headers) bs c (s, a) = rw (add_lem header bs c s.lowercase) (
      add_all_lem headers (bs ++ ((qpack_encode hash header c).0 ∷ []))
        (qpack_encode hash header c).1 a
      ∙ rw
          (append_assoc bs ((qpack_encode hash header c).0 ∷ [])
            (blocks headers (qpack_encode hash header c).1).0)
          refl)

  -- The queue is sent buffer by buffer; none of them is empty.
  transmit_queued :
      (bs : Buffers) (c : Coder)
      → All (λ b. 0 < length b) bs
      → 0 < length bs
      → transmit (suc (length bs)) (record { state = at_qpack; buffers = bs; qpack = c }) ≡ ok bs
  unfolding transmit encode finished pop empty size
  transmit_queued [] c a p = absurd (omega arith)
  transmit_queued (b ∷ []) c a p = refl
  transmit_queued (b ∷ b' ∷ bs) c (q, a) p =
      let more : (length b' + size bs == 0) ≡ false = ne-zero _ (omega (arith, a.0)) in
      rw (more, transmit_queued (b' ∷ bs) c a (omega arith)) refl
    where
      ne-zero : (n : ℕ) → 0 < n → (n == 0) ≡ false
      ne-zero n h = ground arith

  pub transmit_lem :
      (bs : Buffers) (c : Coder) (frame : List ℕ)
      → All (λ b. 0 < length b) bs
      → 0 < length bs
      → Write.encode_buffer (Frame.headers c.count) ≡ ok frame
      → transmit (suc (suc (length bs))) (record { state = at_frame; buffers = bs; qpack = c })
        ≡ ok (frame ∷ bs)
  unfolding transmit encode finished
  transmit_lem bs c frame a p e = rw (e, transmit_queued bs c a p) refl

  pub blocks-pos :
      (headers : List Header) (c : Coder)
      → All (Sendable hash) headers
      → All (λ b. 0 < length b) (blocks headers c).0
  blocks-pos [] c a = tt
  blocks-pos (header ∷ headers) c (s, a) =
      (block-pos header c s, blocks-pos headers (qpack_encode hash header c).1 a)

  pub blocks_count :
      (headers : List Header) (c : Coder)
      → c.count + length (view (blocks headers c).0) < 2 ^ 64
      → (blocks headers c).1.count ≡ c.count + length (view (blocks headers c).0)
  unfolding view
  blocks_count [] c h = omega arith
  blocks_count (header ∷ headers) c h =
      let l =
        length-append (qpack_encode hash header c).0
          (view (blocks headers (qpack_encode hash header c).1).0) in
      let n : (qpack_encode hash header c).1.count
          ≡ c.count + length (qpack_encode hash header c).0 =
        omega (arith, encode_count header c) in
      omega (arith, blocks_count headers (qpack_encode hash header c).1 (omega arith))

  pub length-blocks :
      (headers : List Header) (c : Coder) → length (blocks headers c).0 ≡ length headers
  length-blocks [] c = refl
  length-blocks (header ∷ headers) c = ap suc (length-blocks headers (qpack_encode hash header c).1)
