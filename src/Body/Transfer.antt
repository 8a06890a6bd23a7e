-- ===== src/Body/Transfer.antt =====
-- A body that the encoder sends and the decoder receives.
use bnl.Prelude.{
  ℕ, zero, suc, ◌+◌, ◌*◌, ◌^◌, ◌<◌, ◌≡◌, refl, sym, arith, true, false, List, [], ◌∷◌, ◌++◌, length,
  length-append, take-append, drop-append, All, ◌==◌, if◌then◌else◌, ap, ◌∙◌, inl, inr, Bool,
  Bool-cases, ==→eq,
}
use bnl.Error.{Result, ok, stuck, ◌>>=◌}
use bnl.Frame.{data_frame}
use bnl.Frame.Write
use bnl.Frame.RoundTrip.{decode-encode_frame}
use bnl.Frame.Peek.{peek-encode}
use bnl.Varint.Encode.{encode_small, encode_cases}
use bnl.Frame.Sizes.{encode_buffer-eq-encode_frame}
use bnl.Buffers.{Buffer, Buffers, size, empty, pop, front}
use bnl.Buffers.View.{view, size-view}
use bnl.Body.{
  Encoder, EncoderState, at_frame, at_data, at_fin, encode, finished, Decoder, new_decoder, decode,
  take_part, begin_part,
}

-- `encode` is called until the encoder is finished.
unfoldable pub transmit : ℕ → Encoder → Result Buffers
unfolding encode finished
transmit zero e = stuck
transmit (suc fuel) e =
    let later = transmit fuel (encode e).1 in
    if finished e then ok [] else (do buffer ← (encode e).0; buffers ← later; ok (buffer ∷ buffers))

-- `decode` is called until nothing is left.
unfoldable pub collect : ℕ → Decoder → List ℕ → Result Buffers
unfolding decode
collect zero d encoded = stuck
collect (suc fuel) d encoded =
    let later = collect fuel (decode (d, encoded)).1.0 (decode (d, encoded)).1.1 in
    if length encoded == 0
    then ok []
    else (do part ← (decode (d, encoded)).0; parts ← later; ok (part ∷ parts))

-- A DATA frame and the bytes that it announces, before anything or not empty.
pub decode_round :
    (b more frame : List ℕ)
    → Write.encode_buffer (data_frame (length b)) ≡ ok frame
    → 0 < length (b ++ more)
    → decode (new_decoder, frame ++ (b ++ more)) ≡ (ok b, (new_decoder, more))
unfolding decode take_part begin_part
decode_round b more frame e h =
    let e' : Write.encode (data_frame (length b)) ≡ ok frame =
      sym (encode_buffer-eq-encode_frame (data_frame (length b))) ∙ e in
    rw
      (
        peek-encode (data_frame (length b)) frame (b ++ more) e',
        decode-encode_frame (data_frame (length b)) frame (b ++ more) tt e',
      )
      (ground (arith, take-append b more, drop-append b more, length-append b more))

-- A DATA frame has a size below 2^62.
data_frame_encodes :
    (n : ℕ)
    → n < 2 ^ 62
    → (frame : List ℕ) × (Write.encode_buffer (data_frame n) ≡ ok frame) × (0 < length frame)
unfolding Write.encode Write.payload_size Write.payload_encode
data_frame_encodes n h = elim (encode_cases n) [
  | inl (ns, e, s, a) ↦ (
    0 ∷ (ns ++ []),
    encode_buffer-eq-encode_frame (data_frame n) ∙ rw (encode_small 0 (omega arith), e) refl,
    omega arith,
  )
  | inr (e, s, l) ↦ absurd (omega arith)
]

abbrev with_state : EncoderState → Buffers → Encoder
with_state state bs = record { state = state; fin_called = true; buffers = bs }

-- The two calls of `encode` for one buffer.
send_frame :
    (fuel : ℕ) (b frame : Buffer) (bs : Buffers)
    → 0 < size (b ∷ bs)
    → Write.encode_buffer (data_frame (length b)) ≡ ok frame
    → transmit (suc fuel) (with_state at_frame (b ∷ bs))
      ≡ (transmit fuel (with_state at_data (b ∷ bs)) >>= λ sent. ok (frame ∷ sent))
unfolding transmit empty front
send_frame fuel b frame bs h e = ground arith

send_data :
    (fuel : ℕ) (b : Buffer) (bs : Buffers)
    → transmit (suc fuel) (with_state at_data (b ∷ bs)) ≡ (
        transmit fuel (with_state (if empty bs then at_fin else at_frame) bs) >>= λ sent.
        ok (b ∷ sent))
unfolding transmit pop
send_data fuel b bs = refl

transmit_fin : (fuel : ℕ) (bs : Buffers) → transmit (suc fuel) (with_state at_fin bs) ≡ ok []
unfolding transmit
transmit_fin fuel bs = refl

collect_nothing : (fuel : ℕ) (d : Decoder) → collect (suc fuel) d [] ≡ ok []
unfolding collect
collect_nothing fuel d = refl

-- One round of `collect`.
collect_round :
    (fuel : ℕ) (b more frame : List ℕ)
    → Write.encode_buffer (data_frame (length b)) ≡ ok frame
    → 0 < length frame
    → 0 < length (b ++ more)
    → collect (suc fuel) new_decoder (frame ++ (b ++ more))
      ≡ (collect fuel new_decoder more >>= λ parts. ok (b ∷ parts))
unfolding collect
collect_round fuel b more frame e h k =
    let r = decode_round b more frame e k in ground (arith, length-append frame (b ++ more))

-- All buffers of the queue are sent, and their bytes arrive.
abbrev Transferred : ℕ → ℕ → Encoder → Type 0
Transferred f g e =
    (sent : Buffers) × (parts : Buffers) × (transmit f e ≡ ok sent)
    × (collect g new_decoder (view sent) ≡ ok parts)
    × (view parts ≡ view e.buffers)
    × (0 < length (view sent))

abbrev IsSize : Buffer → Type 0
IsSize b = length b < 2 ^ 62

-- The last buffer that is not empty; the ones behind it are never sent.
transfer_last :
    (f g : ℕ) (b : Buffer) (bs : Buffers)
    → 0 < size (b ∷ bs)
    → IsSize b
    → empty bs ≡ true
    → 2 < f
    → 1 < g
    → Transferred f g (with_state at_frame (b ∷ bs))
unfolding empty size view
transfer_last (suc (suc (suc f))) (suc (suc g)) b bs h s e p q =
    let (frame, fe, fl) = data_frame_encodes (length b) s in
    let none_left : length (view bs) ≡ 0 = omega (arith, size-view bs, ==→eq (size bs) 0 e) in
    (
      frame ∷ b ∷ [],
      b ∷ [],
      rw (send_frame (suc (suc f)) b frame bs h fe, send_data (suc f) b bs, e, transmit_fin f bs)
          refl,
      collect_round (suc g) b [] frame fe fl
            (omega (arith, length-append b [], ==→eq (size bs) 0 e))
          ∙ rw (collect_nothing g new_decoder) refl,
      ap (◌++◌ b) (sym (no_bytes (view bs) none_left)),
      omega (arith, length-append frame (b ++ [])),
    )
  where
    no_bytes : (xs : List ℕ) → length xs ≡ 0 → xs ≡ []
    no_bytes [] k = refl
    no_bytes (x ∷ xs) k = absurd (omega arith)
transfer_last _ _ b bs h s e p q = absurd (omega arith)

not-empty : (bs : Buffers) → empty bs ≡ false → 0 < size bs
unfolding empty
not-empty bs e = ground arith

transfer_queued :
    (f g : ℕ) (bs : Buffers)
    → 0 < size bs
    → All IsSize bs
    → 2 * length bs < f
    → length bs < g
    → Transferred f g (with_state at_frame bs)
unfolding view size
transfer_queued f g [] h s p q = absurd (omega arith)
transfer_queued (suc (suc f)) (suc g) (b ∷ bs) h s p q = elim (Bool-cases (empty bs)) [
  | inl e ↦ transfer_last (suc (suc f)) (suc g) b bs h s.0 e (omega arith) (omega arith)
  | inr e ↦
      let (frame, fe, fl) = data_frame_encodes (length b) s.0 in
      let more : 0 < size bs = not-empty bs e in
      let (sent, parts, t, c, same, some_bytes) =
        transfer_queued f g bs more s.1 (omega arith) (omega arith) in
      (
        frame ∷ b ∷ sent,
        b ∷ parts,
        rw (send_frame (suc f) b frame bs h fe, send_data f b bs, e, t) refl,
        collect_round g b (view sent) frame fe fl (omega (arith, length-append b (view sent)))
            ∙ rw c refl,
        ap (◌++◌ b) same,
        omega (arith, length-append frame (b ++ view sent), length-append b (view sent)),
      )
]
transfer_queued _ _ (b ∷ bs) h s p q = absurd (omega arith)

-- An encoder between two frames whose `fin` was called and that has a byte to send is finished
-- within two calls of `encode` for each buffer, none of which fails, and a new decoder takes from
-- what they returned the bytes of all the buffers, in order. No buffer has 2^62 bytes.
pub transmit-collect :
    (e : Encoder)
    → e.state ≡ at_frame
    → e.fin_called ≡ true
    → 0 < size e.buffers
    → All IsSize e.buffers
    → (sent : Buffers) × (parts : Buffers) × (transmit (2 * length e.buffers + 1) e ≡ ok sent)
      × (collect (length e.buffers + 1) new_decoder (view sent) ≡ ok parts)
      × (view parts ≡ view e.buffers)
transmit-collect e p q h z =
    let (sent, parts, t, r, same, some_bytes) =
      transfer_queued (2 * length e.buffers + 1) (length e.buffers + 1) e.buffers h z (omega arith)
        (omega arith) in
    (sent, parts, rw (all_given e.state e.fin_called e.buffers p q) t, r, same)
  where
    all_given :
        (s : EncoderState) (c : Bool) (bs : Buffers)
        → s ≡ at_frame
        → c ≡ true
        → ◌≡◌ {A = Encoder}
            (record { state = s; fin_called = c; buffers = bs })
            (with_state at_frame bs)
    all_given s c bs p q = rw (p, q) refl
