-- ===== src/Server/Examples.antt =====
-- The theorems on the server at concrete inputs.
use bnl.Prelude.{◌≡◌, refl, true, false, [], ◌∷◌}
use bnl.Error.{ok, stuck}
use bnl.Event.{Data}
use bnl.Buffers.{pop, empty, size}
use bnl.Headers
use bnl.Headers.Plain.{plain}
use bnl.Body
use bnl.Control
use bnl.Request
use bnl.Server.{Connection, new_connection, send, process}
use bnl.Server.Erased.{send-process_erased}

-- The header block of a response without a body is the last piece.
abbrev last_piece : Request.Sender plain
last_piece = record {
  state = Request.at_headers;
  headers = record { state = Headers.at_qpack; buffers = (1 ∷ 103 ∷ []) ∷ []; qpack = 2 };
  body = record { state = Body.at_fin; fin_called = true; buffers = [] };
  id = 0;
}

abbrev all_sent : Request.Sender plain
all_sent = record last_piece {
  state = Request.at_fin;
  headers = record { state = Headers.at_fin; buffers = []; qpack = 2 };
}

abbrev last_data : Data
last_data = record { id = 0; fin = true; buffer = 1 ∷ 103 ∷ [] }

final_sent : Request.send plain last_piece ≡ (ok last_data, all_sent)
unfolding Request.send Headers.encode Headers.finished Body.finished pop empty size
final_sent = refl

not_finished : Request.finished plain last_piece ≡ false
unfolding Request.finished
not_finished = refl

is_finished : Request.finished plain all_sent ≡ true
unfolding Request.finished
is_finished = refl

-- The receiver still expects the body of the request.
abbrev responding : Connection plain
responding = record (new_connection plain) {
  control_sender = record (Control.new_sender 3) { state = Control.at_idle };
  requests =
      (0, (last_piece, record (Request.new_receiver plain 0) { state = Request.in_body })) ∷ [];
}

send-process_erased_example :
    ((send plain responding).0 ≡ ok last_data)
    × ((send plain responding).1.requests ≡ [])
    × ((process plain 0 (send plain responding).1).0 ≡ stuck)
send-process_erased_example =
    send-process_erased plain responding 0 last_piece all_sent
      (record (Request.new_receiver plain 0) { state = Request.in_body }) last_data refl refl
      not_finished final_sent is_finished refl
