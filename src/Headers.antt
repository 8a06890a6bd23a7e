-- ===== src/Headers.antt =====
-- bnl/http3/src/codec/headers.cpp: a header block in a HEADERS frame.
pub mod Plain
pub mod Sending
pub mod Transfer
mod Examples
use bnl.Prelude.{
  ℕ, ◌<◌, ◌≡◌, Bool, true, false, List, [], ◌∷◌, Option, none, some, ltb, ◌==◌, if◌then◌else◌,
}
use bnl.Error.{Result, ok, err, stuck, internal, idle, delegate, malformed_frame}
use bnl.Object.{Op, attempt}
use bnl.Frame.{Frame, FrameType, first_member}
use bnl.Frame.Write
use bnl.Frame.Read
use bnl.Buffers.{Buffer, Buffers, push, pop, empty}
use bnl.Event.{Header}

-- `qpack::encoder` and `qpack::decoder`, as the header codec uses them: the encoder and its count
-- of the bytes that it wrote, the decoder and its count of those that it took off the sequence.
pub record Qpack : Type 1 where
  pub QpackEncoder : Type 0
  pub QpackDecoder : Type 0
  pub new_qpack_encoder : QpackEncoder
  pub new_qpack_decoder : QpackDecoder
  pub qpack_encode : Header → Op QpackEncoder Buffer
  pub encoder_count : QpackEncoder → ℕ
  pub qpack_decode : Op (QpackDecoder × List ℕ) Header
  pub decoder_count : QpackDecoder → ℕ

-- `encoder::state`.
pub data EncoderState : Type 0 where
  at_idle at_frame at_qpack at_fin : EncoderState

-- `decoder::state`.
pub data DecoderState : Type 0 where
  in_frame in_qpack in_fin : DecoderState

abbrev is_idle_state : EncoderState → Bool
is_idle_state at_idle = true
is_idle_state _ = false

abbrev is_fin : EncoderState → Bool
is_fin at_fin = true
is_fin _ = false

abbrev pub is_headers : FrameType → Bool
is_headers FrameType.headers = true
is_headers _ = false

module _ (q : Qpack) where
  pub record Encoder : Type 0 where
    pub state : EncoderState
    pub buffers : Buffers
    pub qpack : q.QpackEncoder

  abbrev pub new_encoder : Encoder
  new_encoder = record { state = at_idle; buffers = []; qpack = q.new_qpack_encoder }

  unfoldable pub add : Header → Op Encoder (Unit {0})
  add header e =
      let encoded = q.qpack_encode header e.qpack in
      if is_idle_state e.state
      then attempt encoded.0 (λ buffer s. (ok tt, record s { buffers = push s.buffers buffer }))
          (record e { qpack = encoded.1 })
      else (err internal, e)

  unfoldable pub fin : Op Encoder (Unit {0})
  fin e =
      if is_idle_state e.state then (ok tt, record e { state = at_frame }) else (err internal, e)

  unfoldable pub finished : Encoder → Bool
  finished e = is_fin e.state

  unfoldable pub encode : Op Encoder Buffer
  encode e = elim e.state [
    | at_idle ↦ (err idle, e)
    | at_frame ↦
        attempt (Write.encode_buffer (Frame.headers (q.encoder_count e.qpack)))
          (λ encoded s. (ok encoded, record s { state = at_qpack })) e
    | at_qpack ↦ (
      ok (pop e.buffers).0,
      record e {
        buffers = (pop e.buffers).1;
        state = if empty (pop e.buffers).1 then at_fin else e.state;
      },
    )
    | at_fin ↦ (err internal, e)
  ]

  pub record Decoder : Type 0 where
    pub state : DecoderState
    pub headers_size : ℕ
    pub qpack : q.QpackDecoder

  abbrev pub new_decoder : Decoder
  new_decoder = record { state = in_frame; headers_size = 0; qpack = q.new_qpack_decoder }

  unfoldable pub started : Decoder → Bool
  started d = elim d.state [ in_frame ↦ false | _ ↦ true ]

  unfoldable pub decoder_finished : Decoder → Bool
  decoder_finished d = elim d.state [ in_fin ↦ true | _ ↦ false ]

  -- The end of the case `state::qpack`.
  unfoldable pub count_header : Header → Op (Decoder × List ℕ) Header
  count_header header (d, encoded) =
      let count = q.decoder_count d.qpack in
      if ltb d.headers_size count then (err malformed_frame, (d, encoded)) else (
        ok header,
        (record d { state = if count == d.headers_size then in_fin else d.state }, encoded),
      )

  -- The case `state::qpack`.
  unfoldable pub take_header : Op (Decoder × List ℕ) Header
  unfolding count_header
  take_header (d, encoded) =
      let decoded = q.qpack_decode (d.qpack, encoded) in
      attempt decoded.0 count_header (record d { qpack = decoded.1.0 }, decoded.1.1)

  -- The end of the case `state::frame`, with the size that `frame.headers.size` reads.
  unfoldable pub begin_headers : Option ℕ → Op (Decoder × List ℕ) Header
  unfolding take_header
  begin_headers none (d, encoded) = (stuck, (d, encoded))
  begin_headers (some size) (d, encoded) =
      let begun = record d { state = in_qpack; headers_size = size } in
      if size == 0 then (err malformed_frame, (begun, encoded)) else take_header (begun, encoded)

  unfoldable pub decode : Op (Decoder × List ℕ) Header
  unfolding begin_headers take_header
  decode (d, encoded) = elim d.state [
    | in_frame ↦
        attempt (Read.peek encoded)
          (λ type s.
            if is_headers type
            then attempt (Read.decode encoded).0 (λ frame. begin_headers (first_member frame))
                (d, (Read.decode encoded).1)
            else (err delegate, s))
          (d, encoded)
    | in_qpack ↦ take_header (d, encoded)
    | in_fin ↦ (err internal, (d, encoded))
  ]
