-- ===== src/Request.antt =====
-- bnl/http3/src/endpoint/stream/request.cpp: one request or response in each direction.
pub mod Send
pub mod Receive
mod Examples
use bnl.Prelude.{
  ℕ, Bool, true, false, ◌&&◌, Option, none, some, List, [], ◌++◌, length, drop, ◌==◌, if◌then◌else◌,
}
use bnl.Error.{
  Error, Result, ok, err, stuck, internal, is_incomplete, is_delegate, malformed_frame,
  wrong_stream, unexpected_frame, not_implemented, invalid_handle,
}
use bnl.Object.{Op, attempt}
use bnl.Frame.{Frame, data_frame}
use bnl.Frame.Read
use bnl.Buffers.{Buffer}
use bnl.Event.{Data, Event, Header, header_event, body_event, finished_event}
use bnl.Headers
use bnl.Headers.{Qpack}
use bnl.Body

-- `sender::state`.
pub data SenderState : Type 0 where
  at_headers at_body at_fin : SenderState

-- `receiver::state`.
pub data ReceiverState : Type 0 where
  in_closed in_headers in_body in_fin : ReceiverState

-- The member functions of `sender::handle`.
pub data HandleCall : Type 0 where
  call_header : Header → HandleCall
  call_body : Buffer → HandleCall
  call_start call_fin : HandleCall

module _ (q : Qpack) where
  -- The handle points to the sender and the sender to the handle; no operation of the sender but
  -- its move and its destructor uses the pointer.
  pub record Sender : Type 0 where
    pub state : SenderState
    pub headers : Headers.Encoder q
    pub body : Body.Encoder
    pub id : ℕ

  abbrev pub new_sender : ℕ → Sender
  new_sender id = record {
    state = at_headers;
    headers = Headers.new_encoder q;
    body = Body.new_encoder;
    id = id;
  }

  unfoldable pub finished : Sender → Bool
  finished s = elim s.state [ at_fin ↦ true | _ ↦ false ]

  -- The case `state::headers` behind `headers_.encode()`.
  unfoldable pub headers_sent : Buffer → Op Sender Data
  headers_sent encoded s =
      let headers_finished = Headers.finished q s.headers in
      let body_finished = Body.finished s.body in
      (
        ok (record { id = s.id; fin = headers_finished && body_finished; buffer = encoded }),
        record s {
          state = if headers_finished then (if body_finished then at_fin else at_body) else s.state;
        },
      )

  -- The case `state::body` behind `body_.encode()`.
  unfoldable pub body_sent : Buffer → Op Sender Data
  body_sent encoded s =
      let body_finished = Body.finished s.body in
      (
        ok (record { id = s.id; fin = body_finished; buffer = encoded }),
        record s { state = if body_finished then at_fin else s.state },
      )

  unfoldable pub send : Op Sender Data
  unfolding headers_sent body_sent
  send s = elim s.state [
    | at_headers ↦
        let encoded = Headers.encode q s.headers in
        attempt encoded.0 headers_sent (record s { headers = encoded.1 })
    | at_body ↦
        let encoded = Body.encode s.body in
        attempt encoded.0 body_sent (record s { body = encoded.1 })
    | at_fin ↦ (err internal, s)
  ]

  unfoldable pub header : Header → Op Sender (Unit {0})
  header h s = let added = Headers.add q h s.headers in (added.0, record s { headers = added.1 })

  unfoldable pub body : Buffer → Op Sender (Unit {0})
  body b s = let added = Body.add b s.body in (added.0, record s { body = added.1 })

  unfoldable pub start : Op Sender (Unit {0})
  start s = let done = Headers.fin q s.headers in (done.0, record s { headers = done.1 })

  unfoldable pub fin : Op Sender (Unit {0})
  fin s = let done = Body.fin s.body in (done.0, record s { body = done.1 })

  pub record Receiver : Type 0 where
    pub state : ReceiverState
    pub buffers : List ℕ
    pub fin_received : Bool
    pub headers : Headers.Decoder q
    pub body : Body.Decoder
    pub id : ℕ

  abbrev pub new_receiver : ℕ → Receiver
  new_receiver id = record {
    state = in_closed;
    buffers = [];
    fin_received = false;
    headers = Headers.new_decoder q;
    body = Body.new_decoder;
    id = id;
  }

  unfoldable pub closed : Receiver → Bool
  closed r = elim r.state [ in_closed ↦ true | _ ↦ false ]

  unfoldable pub receiver_finished : Receiver → Bool
  receiver_finished r = elim r.state [ in_fin ↦ true | _ ↦ false ]

  -- The receiver is closed, by an assertion.
  unfoldable pub receiver_start : Op Receiver (Unit {0})
  receiver_start r = (ok tt, record r { state = in_headers })

  unfoldable pub recv : Data → Op Receiver (Unit {0})
  recv data' r =
      if r.fin_received
      then (err internal, r)
      else (ok tt, record r { fin_received = data'.fin; buffers = r.buffers ++ data'.buffer })

  -- The case `state::headers` behind `headers_.decode(buffers_)`.
  unfoldable pub header_decoded : Header → Op Receiver Event
  header_decoded h r =
      let fin = (length r.buffers == 0) && r.fin_received in
      let headers_finished = Headers.decoder_finished q r.headers in
      (
        ok (header_event r.id headers_finished h),
        record r {
          state =
              if headers_finished && fin
              then in_fin
              else if headers_finished
              then in_body
              else r.state;
        },
      )

  -- The case `state::body` behind `body_.decode(buffers_)`.
  unfoldable pub body_decoded : Buffer → Op Receiver Event
  body_decoded part r =
      let fin = (length r.buffers == 0) && r.fin_received in
      if fin && Body.in_progress r.body then (err malformed_frame, r) else (
        ok (body_event (record { id = r.id; fin = fin; buffer = part })),
        record r { state = if fin then in_fin else r.state },
      )

  -- `process(frame)` of the client's and of the server's receiver.
  abbrev pub client_process : Receiver → Frame → Result Event
  client_process r (Frame.push_promise id size) = err not_implemented
  client_process r (Frame.duplicate_push id) = err not_implemented
  client_process r (Frame.headers size) = err unexpected_frame
  client_process r (Frame.priority p) = err unexpected_frame
  client_process r _ = err internal

  abbrev pub server_process : Receiver → Frame → Result Event
  server_process r (Frame.priority p) =
      if Headers.started q r.headers then err unexpected_frame else err not_implemented
  server_process r (Frame.headers size) = err unexpected_frame
  server_process r (Frame.push_promise id size) = err unexpected_frame
  server_process r (Frame.duplicate_push id) = err unexpected_frame
  server_process r _ = err internal

  abbrev pub in_body_state : ReceiverState → Bool
  in_body_state in_body = true
  in_body_state _ = false

  -- The `switch` over a frame that the codecs delegate; trailing headers end the body. The error
  -- that is returned below the `switch` is `delegate`.
  abbrev pub delegated_frame : (Receiver → Frame → Result Event) → Frame → Op Receiver Event
  delegated_frame process_frame (Frame.headers size) r =
      if in_body_state r.state
      then (
        ok (body_event (record { id = r.id; fin = true; buffer = [] })),
        record r { buffers = drop (length r.buffers) r.buffers; state = in_fin },
      )
      else (err Error.delegate, r)
  delegated_frame process_frame (data_frame size) r = (err unexpected_frame, r)
  delegated_frame process_frame (Frame.settings s) r = (err wrong_stream, r)
  delegated_frame process_frame (Frame.max_push_id id) r = (err wrong_stream, r)
  delegated_frame process_frame (Frame.cancel_push id) r = (err wrong_stream, r)
  delegated_frame process_frame (Frame.goaway id) r = (err wrong_stream, r)
  delegated_frame process_frame frame r = (process_frame r frame, r)

  -- What stands below the first `switch` of `process`.
  unfoldable pub failed : (Receiver → Frame → Result Event) → Error → Op Receiver Event
  failed process_frame error r =
      let decoded = Read.decode r.buffers in
      if is_incomplete error && r.fin_received
      then (err malformed_frame, r)
      else if is_delegate error
      then attempt decoded.0 (delegated_frame process_frame) (record r { buffers = decoded.1 })
      else (err error, r)

  -- `break` on an error of the codec, with the receiver as the codec left it.
  abbrev pub or_failed :
      {A : Type 0}
      → (Receiver → Frame → Result Event)
      → Result A
      → (A → Op Receiver Event)
      → Op Receiver Event
  or_failed process_frame (ok value) next r = next value r
  or_failed process_frame (err error) next r = failed process_frame error r
  or_failed process_frame stuck next r = (stuck, r)

  unfoldable pub process : (Receiver → Frame → Result Event) → Op Receiver Event
  unfolding header_decoded body_decoded failed
  process process_frame r = elim r.state [
    | in_closed ↦ (err internal, r)
    | in_headers ↦
        let decoded = Headers.decode q (r.headers, r.buffers) in
        or_failed process_frame decoded.0 header_decoded
          (record r { headers = decoded.1.0; buffers = decoded.1.1 })
    | in_body ↦
        let decoded = Body.decode (r.body, r.buffers) in
        or_failed process_frame decoded.0 body_decoded
          (record r { body = decoded.1.0; buffers = decoded.1.1 })
    | in_fin ↦ (ok (finished_event r.id), r)
  ]

  -- A member function of `handle`: it calls the one of the sender, if there still is a sender.
  abbrev pub by_handle : Op Sender (Unit {0}) → Op (Option Sender) (Unit {0})
  by_handle called none = (err invalid_handle, none)
  by_handle called (some s) = let done = called s in (done.0, some done.1)

  -- The member function of the sender that a call of the handle leads to.
  abbrev pub operation : HandleCall → Op Sender (Unit {0})
  operation (call_header h) = header h
  operation (call_body b) = body b
  operation call_start = start
  operation call_fin = fin
