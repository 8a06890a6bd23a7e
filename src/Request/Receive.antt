-- ===== src/Request/Receive.antt =====
-- The receiver of a request.
use bnl.Prelude.{
  ℕ, ◌<◌, ◌⊎◌, drop, ◌≡◌, refl, true, false, ◌&&◌, List, [], ◌∷◌, ◌++◌, length, Bool-cases, inl,
  inr, ◌==◌, if◌then◌else◌,
}
use bnl.Error.{Error, Result, ok, err, malformed_frame, unexpected_frame, wrong_stream}
use bnl.Frame.{Frame, FrameType, data_frame, frame_type, to_type}
use bnl.Varint
use bnl.Frame.Write
use bnl.Frame.Read
use bnl.Frame.RoundTrip.{Fits, decode-encode_frame}
use bnl.Frame.Peek.{peek-encode, peek_loop-known}
use bnl.Frame.Safety.{decode_loop-frame}
use bnl.Event.{Event, body_event}
use bnl.Headers
use bnl.Headers.{Qpack}
use bnl.Body
use bnl.Body.{is_data, new_decoder}
use bnl.Body.Transfer.{decode_round}
use bnl.Request.{
  Receiver, process, body_decoded, failed, delegated_frame, in_headers, in_body, in_fin,
}

empty_frame :
    (encoded behind_type : List ℕ)
    → Varint.decode encoded ≡ (ok 0, behind_type)
    → Varint.decode behind_type ≡ (ok 0, [])
    → Read.decode_single encoded ≡ (ok (data_frame 0), [])
unfolding Read.decode_single to_type
empty_frame encoded behind_type t n = rw (t, n) refl

peek_empty_frame :
    (encoded behind_type : List ℕ)
    → Varint.decode encoded ≡ (ok 0, behind_type)
    → Read.peek encoded ≡ ok FrameType.data_type
unfolding Read.peek to_type
peek_empty_frame encoded behind_type t =
    peek_loop-known (length encoded) encoded behind_type 0 t FrameType.data_type refl

read_empty_frame :
    (encoded behind_type : List ℕ)
    → Varint.decode encoded ≡ (ok 0, behind_type)
    → Varint.decode behind_type ≡ (ok 0, [])
    → Read.decode encoded ≡ (ok (data_frame 0), [])
unfolding Read.decode
read_empty_frame encoded behind_type t n =
    decode_loop-frame (length encoded) encoded [] (data_frame 0)
      (empty_frame encoded behind_type t n)

-- A DATA frame of size 0, in any of its encodings, and nothing behind it.
decode_empty_frame :
    (encoded behind_type : List ℕ)
    → Varint.decode encoded ≡ (ok 0, behind_type)
    → Varint.decode behind_type ≡ (ok 0, [])
    → Body.decode (new_decoder, encoded)
      ≡ (err Error.incomplete, (record { state = Body.in_data; remaining = 0 }, []))
unfolding Body.decode
decode_empty_frame encoded behind_type t n =
    rw (peek_empty_frame encoded behind_type t, read_empty_frame encoded behind_type t n) refl

module _ (q : Qpack) (process_frame : Receiver q → Frame → Result Event) (r : Receiver q) where
  -- A whole DATA frame in the body is one event, which carries the end of the stream exactly if
  -- nothing is left and the end was received; then the receiver is finished. The frame is not
  -- empty, or something stands behind it.
  pub process_data :
      (frame b more : List ℕ)
      → r.state ≡ in_body
      → r.body ≡ new_decoder
      → Write.encode_buffer (data_frame (length b)) ≡ ok frame
      → 0 < length (b ++ more)
      → r.buffers ≡ frame ++ (b ++ more)
      → process q process_frame r ≡ (
        ok (
            body_event
              (record { id = r.id; fin = (length more == 0) && r.fin_received; buffer = b })),
        record r {
          buffers = more;
          state = if (length more == 0) && r.fin_received then in_fin else in_body;
        },
      )
  unfolding process body_decoded Body.in_progress
  process_data frame b more t d e h w =
      rw (t, d, w, decode_round b more frame e h)
        (elim (Bool-cases ((length more == 0) && r.fin_received)) [
          | inl k ↦ rw k refl
          | inr k ↦ rw k refl
        ])

  -- In the body and between two DATA frames, a DATA frame of size 0 that ends the stream is taken
  -- off and answered by `malformed_frame`, however its type and its size are encoded.
  pub process_empty_data :
      (behind_type : List ℕ)
      → r.state ≡ in_body
      → r.body ≡ new_decoder
      → r.fin_received ≡ true
      → Varint.decode r.buffers ≡ (ok 0, behind_type)
      → Varint.decode behind_type ≡ (ok 0, [])
      → process q process_frame r ≡ (
        err malformed_frame,
        record r { body = record { state = Body.in_data; remaining = 0 }; buffers = [] },
      )
  unfolding process failed
  process_empty_data behind_type t d f w n =
      rw (t, d, decode_empty_frame r.buffers behind_type w n, f) refl

  -- How a frame is answered that is not part of the headers or of the body, by its type.
  abbrev pub Answered : Frame → List ℕ → Result Event × Receiver q → Type 0
  Answered (data_frame size) rest p = p ≡ (err unexpected_frame, record r { buffers = rest })
  Answered (Frame.headers size) rest p = p ≡ (
    ok (body_event (record { id = r.id; fin = true; buffer = [] })),
    record r { buffers = []; state = in_fin },
  )
  Answered (Frame.priority priority) rest p = p ≡ (
    process_frame (record r { buffers = rest }) (Frame.priority priority),
    record r { buffers = rest },
  )
  Answered (Frame.cancel_push id) rest p = p ≡ (err wrong_stream, record r { buffers = rest })
  Answered (Frame.settings settings) rest p = p ≡ (err wrong_stream, record r { buffers = rest })
  Answered (Frame.push_promise id size) rest p = p ≡ (
    process_frame (record r { buffers = rest }) (Frame.push_promise id size),
    record r { buffers = rest },
  )
  Answered (Frame.goaway id) rest p = p ≡ (err wrong_stream, record r { buffers = rest })
  Answered (Frame.max_push_id id) rest p = p ≡ (err wrong_stream, record r { buffers = rest })
  Answered (Frame.duplicate_push id) rest p = p ≡ (
    process_frame (record r { buffers = rest }) (Frame.duplicate_push id),
    record r { buffers = rest },
  )

  -- A frame that the codec of the state of the receiver does not take.
  abbrev pub Foreign : Frame → Type 0
  Foreign f =
      ((r.state ≡ in_body) × (r.body ≡ new_decoder) × (is_data (frame_type f) ≡ false))
      ⊎ ((r.state ≡ in_headers)
          × (r.headers ≡ Headers.new_decoder q)
          × (Headers.is_headers (frame_type f) ≡ false))

  drop_all : (xs : List ℕ) → drop (length xs) xs ≡ []
  drop_all [] = refl
  drop_all (x ∷ xs) = drop_all xs

  delegated-Answered :
      (f : Frame) (rest : List ℕ)
      → Foreign f
      → Answered f rest (delegated_frame q process_frame f (record r { buffers = rest }))
  delegated-Answered (data_frame size) rest h = refl
  delegated-Answered (Frame.headers size) rest (inl (t, d, n)) = rw (t, drop_all rest) refl
  delegated-Answered (Frame.headers size) rest (inr (t, d, n)) = cc
  delegated-Answered (Frame.priority priority) rest h = refl
  delegated-Answered (Frame.cancel_push id) rest h = refl
  delegated-Answered (Frame.settings settings) rest h = refl
  delegated-Answered (Frame.push_promise id size) rest h = refl
  delegated-Answered (Frame.goaway id) rest h = refl
  delegated-Answered (Frame.max_push_id id) rest h = refl
  delegated-Answered (Frame.duplicate_push id) rest h = refl

  -- The switch is reached in both states.
  process-delegated :
      (f : Frame) (frame rest : List ℕ)
      → Foreign f
      → Write.encode f ≡ ok frame
      → Fits f
      → r.buffers ≡ frame ++ rest
      → process q process_frame r ≡ delegated_frame q process_frame f (record r { buffers = rest })
  unfolding process failed Body.decode Headers.decode
  process-delegated f frame rest (inl (t, d, n)) e z w =
      rw (t, d, w, peek-encode f frame rest e, n, decode-encode_frame f frame rest z e) refl
  process-delegated f frame rest (inr (t, d, n)) e z w =
      rw (t, d, w, peek-encode f frame rest e, n, decode-encode_frame f frame rest z e) refl

  -- A whole frame that is not a DATA frame, outside the DATA frames of the body, and one that is
  -- not a HEADERS frame, in front of the headers, are taken off. A DATA frame is answered by
  -- `unexpected_frame`; SETTINGS, CANCEL_PUSH, GOAWAY and MAX_PUSH_ID by `wrong_stream`; the other
  -- types but HEADERS by the virtual `process`. HEADERS behind the body end it: all that was
  -- received is dropped, the receiver is finished, and the event is an empty last piece of the
  -- body. Sizes and weight of the frame fit, as for a round trip.
  pub process_other :
      (f : Frame) (frame rest : List ℕ)
      → Foreign f
      → Write.encode f ≡ ok frame
      → Fits f
      → r.buffers ≡ frame ++ rest
      → Answered f rest (process q process_frame r)
  process_other f frame rest h e z w =
      rw (process-delegated f frame rest h e z w) (delegated-Answered f rest h)
