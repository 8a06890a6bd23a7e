-- ===== src/Body.antt =====
-- bnl/http3/src/codec/body.cpp: a body as a sequence of DATA frames.
pub mod Transfer
pub mod Invariant
mod Examples
use bnl.Prelude.{
  ℕ, ◌-◌, Bool, true, false, ◌&&◌, List, [], ◌∷◌, Option, none, some, length, take, drop, ltb, ◌==◌,
  if◌then◌else◌,
}
use bnl.Error.{Result, ok, err, stuck, internal, idle, delegate, incomplete}
use bnl.Object.{Op, attempt}
use bnl.Frame.{Frame, FrameType, data_frame, first_member}
use bnl.Frame.Write
use bnl.Frame.Read
use bnl.Buffers.{Buffer, Buffers, push, pop, front, empty}

-- `encoder::state`.
pub data EncoderState : Type 0 where
  at_frame at_data at_fin : EncoderState

pub record Encoder : Type 0 where
  pub state : EncoderState
  pub fin_called : Bool
  pub buffers : Buffers

abbrev pub new_encoder : Encoder
new_encoder = record { state = at_frame; fin_called = false; buffers = [] }

unfoldable pub add : Buffer → Op Encoder (Unit {0})
add body e =
    if e.fin_called then (err internal, e) else (ok tt, record e { buffers = push e.buffers body })

unfoldable pub fin : Op Encoder (Unit {0})
fin e = elim e.state [
  | at_fin ↦ (err internal, e)
  | _ ↦ (ok tt, record e { fin_called = true; state = if empty e.buffers then at_fin else e.state })
]

abbrev is_fin : EncoderState → Bool
is_fin at_fin = true
is_fin at_frame = false
is_fin at_data = false

unfoldable pub finished : Encoder → Bool
finished e = is_fin e.state

unfoldable pub encode : Op Encoder Buffer
encode e = elim e.state [
  | at_frame ↦
      if empty e.buffers
      then (err idle, e)
      else attempt (Write.encode_buffer (data_frame (length (front e.buffers))))
          (λ encoded s. (ok encoded, record s { state = at_data })) e
  | at_data ↦ (
    ok (pop e.buffers).0,
    record e {
      buffers = (pop e.buffers).1;
      state = if e.fin_called && empty (pop e.buffers).1 then at_fin else at_frame;
    },
  )
  | at_fin ↦ (err internal, e)
]

-- `decoder::state`.
pub data DecoderState : Type 0 where
  in_frame in_data : DecoderState

pub record Decoder : Type 0 where
  pub state : DecoderState
  pub remaining : ℕ

abbrev pub new_decoder : Decoder
new_decoder = record { state = in_frame; remaining = 0 }

unfoldable pub in_progress : Decoder → Bool
in_progress d = elim d.state [ in_data ↦ true | in_frame ↦ false ]

-- The case `state::data`.
unfoldable pub take_part : Op (Decoder × List ℕ) Buffer
take_part (d, encoded) =
    let part_size = if ltb (length encoded) d.remaining then length encoded else d.remaining in
    if length encoded == 0 then (err incomplete, (d, encoded)) else (
      ok (take part_size encoded),
      (
        record {
          state = if d.remaining - part_size == 0 then in_frame else d.state;
          remaining = d.remaining - part_size;
        },
        drop part_size encoded,
      ),
    )

-- The end of the case `state::frame`, with the size that `frame.data.size` reads.
unfoldable pub begin_part : Option ℕ → Op (Decoder × List ℕ) Buffer
unfolding take_part
begin_part none (d, encoded) = (stuck, (d, encoded))
begin_part (some size) (d, encoded) =
    take_part (record { state = in_data; remaining = size }, encoded)

abbrev pub is_data : FrameType → Bool
is_data FrameType.data_type = true
is_data _ = false

-- The decoder and the sequence; the lookahead of `peek` leaves both alone.
unfoldable pub decode : Op (Decoder × List ℕ) Buffer
unfolding take_part begin_part
decode (d, encoded) = elim d.state [
  | in_frame ↦
      attempt (Read.peek encoded)
        (λ type s.
          if is_data type
          then attempt (Read.decode encoded).0 (λ frame. begin_part (first_member frame))
              (d, (Read.decode encoded).1)
          else (err delegate, s))
        (d, encoded)
  | in_data ↦ take_part (d, encoded)
]
