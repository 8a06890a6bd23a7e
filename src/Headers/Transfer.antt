-- ===== src/Headers/Transfer.antt =====
-- A header block that the encoder sends and the decoder receives, with the QPACK codec.
use bnl.Prelude.{
  ℕ, zero, suc, ◌+◌, ◌^◌, ◌≤◌, ◌<◌, ◌≡◌, refl, sym, ap, ◌∙◌, arith, true, false, List, [], ◌∷◌,
  ◌++◌, append_assoc, append-nil, length, length-append, All, le→ltb, ◌==◌, if◌then◌else◌,
}
use bnl.Error.{Result, ok, stuck, ◌>>=◌}
use bnl.Frame.{Frame}
use bnl.Frame.Write
use bnl.Frame.RoundTrip.{decode-encode_frame}
use bnl.Frame.Peek.{peek-encode}
use bnl.Frame.Sizes.{encode_buffer-eq-encode_frame}
use bnl.Buffers.View.{view}
use bnl.Event.{Header}
use bnl.Qpack.{Coder, new_coder, encode as qpack_encode}
use bnl.Qpack.Codec.{codec}
use bnl.Qpack.RoundTrip.{Sendable, decode-encode_header}
use bnl.Headers.Sending.{
  headers_frame, add_all, transmit, blocks, block-pos, encode_count, add_all_lem, transmit_lem,
  blocks-pos, blocks_count, length-blocks,
}
use bnl.Headers.{
  Encoder, at_frame, new_encoder, Decoder, DecoderState, in_qpack, in_fin, new_decoder, decode,
  decoder_finished, take_header, count_header, begin_headers,
}

module _ (hash : List ℕ → ℕ) where
  -- `decode` is called until the decoder is finished: the headers, and the bytes that are left.
  unfoldable pub collect : ℕ → Decoder (codec hash) → List ℕ → Result (List Header × List ℕ)
  collect zero d encoded = stuck
  collect (suc fuel) d encoded =
      let decoded = decode (codec hash) (d, encoded) in
      let later = collect fuel decoded.1.0 decoded.1.1 in
      if decoder_finished (codec hash) d
      then ok ([], encoded)
      else (decoded.0 >>= λ header. later >>= λ rest. ok (header ∷ rest.0, rest.1))

  abbrev receiving : DecoderState → ℕ → Coder → Decoder (codec hash)
  receiving state total c = record { state = state; headers_size = total; qpack = c }

  -- One call of `decode` behind the frame.
  take_one :
      (header : Header) (c : Coder) (total : ℕ) (rest : List ℕ)
      → Sendable hash header
      → (qpack_encode hash header c).1.count ≤ total
      → decode (codec hash) (receiving in_qpack total c, (qpack_encode hash header c).0 ++ rest) ≡ (
        ok header,
        (
          receiving
              (if (qpack_encode hash header c).1.count == total then in_fin else in_qpack)
              total
              (qpack_encode hash header c).1,
          rest,
        ),
      )
  unfolding decode take_header count_header
  take_one header c total rest s h =
      rw
        (
          decode-encode_header hash header c rest s,
          le→ltb total (qpack_encode hash header c).1.count h,
        )
        refl

  -- A HEADERS frame puts the decoder into the state behind the frame, and it goes on there.
  take_frame :
      (total : ℕ) (frame encoded : List ℕ)
      → Write.encode_buffer (Frame.headers total) ≡ ok frame
      → 0 < total
      → decode (codec hash) (new_decoder (codec hash), frame ++ encoded)
        ≡ decode (codec hash) (receiving in_qpack total new_coder, encoded)
  unfolding decode begin_headers take_header
  take_frame total frame encoded e h =
      let e' : Write.encode (Frame.headers total) ≡ ok frame =
        sym (encode_buffer-eq-encode_frame (Frame.headers total)) ∙ e in
      rw
        (
          peek-encode (Frame.headers total) frame encoded e',
          decode-encode_frame (Frame.headers total) frame encoded tt e',
          ne-zero total h,
        )
        refl
    where
      ne-zero : (n : ℕ) → 0 < n → (n == 0) ≡ false
      ne-zero n h = ground arith

  collect_step :
      (fuel : ℕ) (d later : Decoder (codec hash)) (header : Header) (encoded rest : List ℕ)
      → decoder_finished (codec hash) d ≡ false
      → decode (codec hash) (d, encoded) ≡ (ok header, (later, rest))
      → collect (suc fuel) d encoded ≡ (collect fuel later rest >>= λ r. ok (header ∷ r.0, r.1))
  unfolding collect
  collect_step fuel d later header encoded rest f e = rw (f, e) refl

  collect_done :
      (fuel total : ℕ) (c : Coder) (encoded : List ℕ)
      → collect (suc fuel) (receiving in_fin total c) encoded ≡ ok ([], encoded)
  unfolding collect decoder_finished
  collect_done fuel total c encoded = refl

  going_on :
      (total : ℕ) (c : Coder) → decoder_finished (codec hash) (receiving in_qpack total c) ≡ false
  unfolding decoder_finished
  going_on total c = refl

  eq→== : (n total : ℕ) → n ≡ total → (n == total) ≡ true
  eq→== n total h = ground arith

  lt→== : (n total : ℕ) → n < total → (n == total) ≡ false
  lt→== n total h = ground arith

  collect-blocks :
      (headers : List Header) (header : Header) (c : Coder) (total : ℕ) (rest : List ℕ)
      → All (Sendable hash) (header ∷ headers)
      → c.count + length (view (blocks hash (header ∷ headers) c).0) ≡ total
      → total < 2 ^ 62
      → collect
          (suc (suc (length headers)))
          (receiving in_qpack total c)
          (view (blocks hash (header ∷ headers) c).0 ++ rest)
        ≡ ok (header ∷ headers, rest)
  unfolding view
  collect-blocks [] header c total rest (s, a) h l =
      let bytes = (qpack_encode hash header c).0 in
      let n : (qpack_encode hash header c).1.count ≡ total =
        omega (arith, encode_count hash header c, length-append bytes []) in
      collect_step 1 (receiving in_qpack total c)
        (receiving in_fin total (qpack_encode hash header c).1) header ((bytes ++ []) ++ rest) rest
        (going_on total c)
        (rw (append-nil bytes)
          (take_one header c total rest s (omega arith) ∙ rw (eq→== _ total n) refl))
      ∙ rw (collect_done 0 total (qpack_encode hash header c).1 rest) refl
  collect-blocks (next ∷ headers) header c total rest (s, a) h l =
      let bytes = (qpack_encode hash header c).0 in
      let c' = (qpack_encode hash header c).1 in
      let later = view (blocks hash (next ∷ headers) c').0 in
      let n : c'.count ≡ c.count + length bytes =
        omega (arith, encode_count hash header c, length-append bytes later) in
      let more : 0 < length later = omega (
        arith,
        block-pos hash next c' a.0,
        length-append (qpack_encode hash next c').0
            (view (blocks hash headers (qpack_encode hash next c').1).0),
      ) in
      let sum : c'.count + length later ≡ total = omega (arith, length-append bytes later) in
      collect_step (suc (suc (length headers))) (receiving in_qpack total c)
        (receiving in_qpack total c') header ((bytes ++ later) ++ rest) (later ++ rest)
        (going_on total c)
        (rw (append_assoc bytes later rest) (
          take_one header c total (later ++ rest) s (omega arith)
          ∙ rw (lt→== c'.count total (omega arith)) refl))
      ∙ rw (collect-blocks headers next c' total rest a sum l) refl

  -- The first call of `decode` begins with the frame.
  collect_frame :
      (fuel total : ℕ) (frame encoded : List ℕ)
      → Write.encode_buffer (Frame.headers total) ≡ ok frame
      → 0 < total
      → collect (suc fuel) (new_decoder (codec hash)) (frame ++ encoded)
        ≡ collect (suc fuel) (receiving in_qpack total new_coder) encoded
  unfolding collect decoder_finished
  collect_frame fuel total frame encoded e h = rw (take_frame total frame encoded e h) refl

-- A new encoder to which headers were added, one at least, and that was ended sends a HEADERS frame
-- with the size of the block, and then a buffer for each header with what QPACK makes of it, and is
-- then finished; none of the calls fails. A new decoder takes from their bytes the headers, in
-- order, is then finished, and leaves what follows. The names are in lower case, names and values
-- have less than 2^32 characters each, no text of the static table is taken for them by its hash,
-- no bits of them are lost where their Huffman code is shorter, and the block has less than 2^62
-- bytes.
pub transmit-collect_headers :
    (hash : List ℕ → ℕ) (headers : List Header) (rest : List ℕ)
    → All (Sendable hash) headers
    → 0 < length headers
    → length (view (blocks hash headers new_coder).0) < 2 ^ 62
    → (e : Encoder (codec hash)) × (frame : List ℕ) × (add_all hash headers
          (new_encoder (codec hash))
        ≡ (ok tt, e))
      × (Write.encode_buffer (Frame.headers (length (view (blocks hash headers new_coder).0)))
          ≡ ok frame)
      × (transmit hash (suc (suc (length headers))) e
          ≡ ok (frame ∷ (blocks hash headers new_coder).0))
      × (length (blocks hash headers new_coder).0 ≡ length headers)
      × (collect hash
            (suc (length headers))
            (new_decoder (codec hash))
            (view (frame ∷ (blocks hash headers new_coder).0) ++ rest)
          ≡ ok (headers, rest))
unfolding view
transmit-collect_headers hash [] rest a p l = absurd (omega arith)
transmit-collect_headers hash (header ∷ headers) rest a p l =
    let all_blocks = (blocks hash (header ∷ headers) new_coder).0 in
    let total = length (view all_blocks) in
    let (frame, e) = headers_frame total l in
    let n : (blocks hash (header ∷ headers) new_coder).1.count ≡ total =
      omega (arith, blocks_count hash (header ∷ headers) new_coder (omega arith)) in
    let some_bytes : 0 < total = omega (
      arith,
      block-pos hash header new_coder a.0,
      length-append (qpack_encode hash header new_coder).0
          (view (blocks hash headers (qpack_encode hash header new_coder).1).0),
    ) in
    let ended : Encoder (codec hash) = record {
      state = at_frame;
      buffers = all_blocks;
      qpack = (blocks hash (header ∷ headers) new_coder).1;
    } in
    (
      ended,
      frame,
      add_all_lem hash (header ∷ headers) [] new_coder a,
      e,
      ap (λ (k : ℕ). transmit hash (suc (suc k)) ended)
            (sym (length-blocks hash (header ∷ headers) new_coder))
          ∙ transmit_lem hash all_blocks (blocks hash (header ∷ headers) new_coder).1 frame
              (blocks-pos hash (header ∷ headers) new_coder a) (omega arith) (rw n e),
      length-blocks hash (header ∷ headers) new_coder,
      ap (collect hash (suc (suc (length headers))) (new_decoder (codec hash)))
            (append_assoc frame (view all_blocks) rest)
          ∙ collect_frame hash (suc (length headers)) total frame (view all_blocks ++ rest) e
              some_bytes
          ∙ collect-blocks hash headers header new_coder total rest a (omega arith) l,
    )
