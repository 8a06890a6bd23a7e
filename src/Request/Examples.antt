-- ===== src/Request/Examples.antt =====
-- Runs of the requests, and their theorems at concrete inputs.
use bnl.Prelude.{ℕ, inl, ◌≡◌, refl, arith, true, false, List, [], ◌∷◌}
use bnl.Error.{ok, err, internal, malformed_frame, wrong_stream}
use bnl.Event.{Data, Header, body_event}
use bnl.Headers
use bnl.Headers.Plain.{plain}
use bnl.Buffers.{size, empty, push, pop}
use bnl.Body
use bnl.Frame.{Frame, data_frame}
use bnl.Frame.Write
use bnl.Varint
use bnl.Request.{
  Sender, new_sender, send, header, start, fin, finished, at_body, at_headers, Receiver,
  new_receiver, process, client_process, in_body, in_fin,
}
use bnl.Request.Send.{send-finished, fin_late}
use bnl.Request.Receive.{process_data, process_empty_data, process_other}

abbrev get_header : Header
get_header = record { name = 103 ∷ []; value = [] }

-- One header is added, the headers are ended, and the HEADERS frame and the header block are sent.
abbrev headers_done : Sender plain
headers_done =
    (send plain (send plain (start plain (header plain get_header (new_sender plain 0)).1).1).1).1

headers_done_body : headers_done.state ≡ at_body
unfolding send header start Headers.add Headers.fin Headers.encode Headers.finished Body.finished
    push pop empty size Write.encode_buffer Write.encode Write.payload_size Write.payload_encode
    Write.encoded_size Varint.encode Varint.encoded_size
headers_done_body = refl

headers_done_queue :
    (headers_done.body.state ≡ Body.at_frame) × (size headers_done.body.buffers ≡ 0)
unfolding send header start size Headers.encode Headers.fin Headers.add Write.encode_buffer
    Write.encoded_size Varint.encoded_size Write.encode Varint.encode Headers.finished
headers_done_queue = (refl, refl)

fin_late_example :
    ((fin plain headers_done).0 ≡ ok tt)
    × (finished plain (fin plain headers_done).1 ≡ false)
    × (send plain (fin plain headers_done).1 ≡ (err internal, (fin plain headers_done).1))
fin_late_example =
    fin_late plain headers_done headers_done_body headers_done_queue.0 headers_done_queue.1

-- A response without a body: its header block is the last piece.
abbrev last_piece : Sender plain
last_piece = record (new_sender plain 0) {
  state = at_headers;
  headers = record { state = Headers.at_qpack; buffers = (1 ∷ 103 ∷ []) ∷ []; qpack = 2 };
  body = record { state = Body.at_fin; fin_called = true; buffers = [] };
}

abbrev last_data : Data
last_data = record { id = 0; fin = true; buffer = 1 ∷ 103 ∷ [] }

final_sent : (send plain last_piece).0 ≡ ok last_data
unfolding send Headers.encode Headers.finished Body.finished header start pop empty size
final_sent = refl

send-finished_example : last_data.fin ≡ finished plain (send plain last_piece).1
send-finished_example = send-finished plain last_piece last_data final_sent

abbrev receiving : List ℕ → Receiver plain
receiving bytes = record (new_receiver plain 0) {
  state = in_body;
  buffers = bytes;
  fin_received = true;
}

encode_two : Write.encode_buffer (data_frame 2) ≡ ok (0 ∷ 2 ∷ [])
unfolding Write.encode_buffer Write.encode Write.payload_size Write.payload_encode
    Write.encoded_size Varint.encode Varint.encoded_size
encode_two = refl

process_data_example : process plain (client_process plain) (receiving (0 ∷ 2 ∷ 8 ∷ 9 ∷ [])) ≡ (
  ok (body_event (record { id = 0; fin = true; buffer = 8 ∷ 9 ∷ [] })),
  record (receiving []) { state = in_fin },
)
process_data_example =
    process_data plain (client_process plain) (receiving (0 ∷ 2 ∷ 8 ∷ 9 ∷ [])) (0 ∷ 2 ∷ [])
      (8 ∷ 9 ∷ []) [] refl refl encode_two (omega arith) refl

read_type : Varint.decode (0 ∷ 0x40 ∷ 0 ∷ []) ≡ (ok 0, 0x40 ∷ 0 ∷ [])
unfolding Varint.decode
read_type = refl

read_size : Varint.decode (0x40 ∷ 0 ∷ []) ≡ (ok 0, [])
unfolding Varint.decode
read_size = refl

-- The size in two bytes.
process_empty_data_example :
    process plain (client_process plain) (receiving (0 ∷ 0x40 ∷ 0 ∷ [])) ≡ (
      err malformed_frame,
      record (receiving []) { body = record { state = Body.in_data; remaining = 0 } },
    )
process_empty_data_example =
    process_empty_data plain (client_process plain) (receiving (0 ∷ 0x40 ∷ 0 ∷ [])) (0x40 ∷ 0 ∷ [])
      refl refl refl read_type read_size

encode_goaway : Write.encode (Frame.goaway 4) ≡ ok (7 ∷ 1 ∷ 4 ∷ [])
unfolding Write.encode Write.payload_size Write.payload_encode Varint.encode Varint.encoded_size
encode_goaway = refl

process_other_example :
    process plain (client_process plain) (receiving (7 ∷ 1 ∷ 4 ∷ 9 ∷ []))
    ≡ (err wrong_stream, receiving (9 ∷ []))
process_other_example =
    process_other plain (client_process plain) (receiving (7 ∷ 1 ∷ 4 ∷ 9 ∷ [])) (Frame.goaway 4)
      (7 ∷ 1 ∷ 4 ∷ []) (9 ∷ []) (inl (refl, refl, refl)) encode_goaway tt refl
