-- ===== src/Control.antt =====
-- bnl/http3/src/endpoint/stream/control.cpp and the control streams of the client and the server.
pub mod Start
mod Examples
use bnl.Prelude.{ℕ, Bool, true, false, List, [], ◌++◌, if◌then◌else◌}
use bnl.Error.{
  Error, Result, ok, err, stuck, internal, idle, closed_critical_stream, missing_settings,
  wrong_stream, unexpected_frame, not_implemented,
}
use bnl.Object.{Op, attempt}
use bnl.Settings.{Settings, default_settings}
use bnl.Frame.{Frame, data_frame}
use bnl.Frame.Write
use bnl.Frame.Read
use bnl.Varint
use bnl.Event.{Data, Event, settings_event}

-- `control::type`.
abbrev pub stream_type : ℕ
stream_type = 0

pub data SenderState : Type 0 where
  at_type at_settings at_idle : SenderState

pub record Sender : Type 0 where
  pub state : SenderState
  pub settings : Settings
  pub id : ℕ

abbrev pub new_sender : ℕ → Sender
new_sender id = record { state = at_type; settings = default_settings; id = id }

unfoldable pub send : Op Sender Data
send sender = elim sender.state [
  | at_type ↦
      attempt (Varint.encode_buffer stream_type)
        (λ encoded s. (
          ok (record { id = s.id; fin = false; buffer = encoded }),
          record s { state = at_settings },
        ))
        sender
  | at_settings ↦
      attempt (Write.encode_buffer (Frame.settings sender.settings))
        (λ encoded s.
          (ok (record { id = s.id; fin = false; buffer = encoded }), record s { state = at_idle }))
        sender
  | at_idle ↦ (err idle, sender)
]

pub data ReceiverState : Type 0 where
  in_type in_settings in_active : ReceiverState

-- The buffers are the bytes that they hold.
pub record Receiver : Type 0 where
  pub state : ReceiverState
  pub buffers : List ℕ
  pub id : ℕ

abbrev pub new_receiver : ℕ → Receiver
new_receiver id = record { state = in_type; buffers = []; id = id }

unfoldable pub recv : Data → Op Receiver (Unit {0})
recv data' r =
    if data'.fin
    then (err closed_critical_stream, r)
    else (ok tt, record r { buffers = r.buffers ++ data'.buffer })

-- `process(frame)` of the client's and of the server's receiver.
abbrev pub client_process : Frame → Result Event
client_process (Frame.cancel_push id) = err not_implemented
client_process (Frame.goaway id) = err not_implemented
client_process (Frame.max_push_id id) = err unexpected_frame
client_process (Frame.priority p) = err unexpected_frame
client_process _ = err internal

abbrev pub server_process : Frame → Result Event
server_process (Frame.cancel_push id) = err not_implemented
server_process (Frame.max_push_id id) = err not_implemented
server_process (Frame.priority p) = err not_implemented
server_process (Frame.goaway id) = err unexpected_frame
server_process _ = err internal

-- The `switch` of the case `state::active`, with the virtual `process(frame)`.
abbrev pub active_frame : (Frame → Result Event) → Frame → Result Event
active_frame process_frame (Frame.headers size) = err wrong_stream
active_frame process_frame (data_frame size) = err wrong_stream
active_frame process_frame (Frame.push_promise id size) = err wrong_stream
active_frame process_frame (Frame.duplicate_push id) = err wrong_stream
active_frame process_frame (Frame.settings s) = err unexpected_frame
active_frame process_frame frame = process_frame frame

-- The first frame has to be a SETTINGS frame.
abbrev pub first_frame : Frame → Op Receiver Event
first_frame (Frame.settings s) r = (ok (settings_event s), record r { state = in_active })
first_frame _ r = (err missing_settings, r)

abbrev pub with_buffers : Receiver → List ℕ → Receiver
with_buffers r bytes = record r { buffers = bytes }

unfoldable pub process_settings : Op Receiver Event
process_settings r =
    let decoded = Read.decode r.buffers in attempt decoded.0 first_frame (with_buffers r decoded.1)

unfoldable pub process_active : (Frame → Result Event) → Op Receiver Event
process_active process_frame r =
    let decoded = Read.decode r.buffers in
    attempt decoded.0 (λ frame s. (active_frame process_frame frame, s)) (with_buffers r decoded.1)

-- The type of the stream that the peer sends is control::type, by an assertion; here any type is
-- accepted.
unfoldable pub process : (Frame → Result Event) → Op Receiver Event
unfolding process_settings process_active
process process_frame r = elim r.state [
  | in_type ↦
      attempt (Varint.decode r.buffers).0
        (λ type s. process_settings (record s { state = in_settings }))
        (with_buffers r (Varint.decode r.buffers).1)
  | in_settings ↦ process_settings r
  | in_active ↦ process_active process_frame r
]

-- The identifiers of the control streams.
abbrev pub client_control_id : ℕ
client_control_id = 0x02

abbrev pub server_control_id : ℕ
server_control_id = 0x03
