-- ===== src/Client/Examples.antt =====
-- The theorems on the client at concrete inputs.
use bnl.Prelude.{ℕ, [], ◌∷◌, ◌+◌, ◌^◌, ◌<◌, ◌≡◌, arith, some}
use bnl.Error.{ok}
use bnl.Streams.{find}
use bnl.Headers.Plain.{plain}
use bnl.Request
use bnl.Event.{Header}
use bnl.Request.{call_header, call_start}
use bnl.Client.{Connection, new_connection, request, send}
use bnl.Client.Ids.{
  Fresh, Reachable, created, requested, sent, handled, handle_called, request-find, Reachable-Fresh,
}

abbrev get_header : Header
get_header = record { name = 103 ∷ []; value = [] }

abbrev one_request : Connection plain
one_request = (request plain (new_connection plain)).1

one_request-Reachable : Reachable plain one_request
one_request-Reachable = requested (new_connection plain) created (omega arith)

-- The headers of the request are given and ended by its handle, and the connection sends twice:
-- first the type of its control stream with the settings, then the HEADERS frame.
abbrev started : Connection plain
started =
    handle_called plain call_start 0
      (find 0
        (handle_called plain (call_header get_header) 0 (find 0 one_request.requests)
          one_request).requests)
      (handle_called plain (call_header get_header) 0 (find 0 one_request.requests) one_request)

abbrev sent_twice : Connection plain
sent_twice = (send plain (send plain started).1).1

sent_twice-Reachable : Reachable plain sent_twice
sent_twice-Reachable = sent _ (
    sent _ (
      handled call_start 0 _
        (handled (call_header get_header) 0 one_request one_request-Reachable)))

Reachable-Fresh_example : Fresh plain sent_twice
Reachable-Fresh_example = Reachable-Fresh plain sent_twice sent_twice-Reachable

one_request_next : one_request.next_stream_id + 4 < 2 ^ 64
unfolding request
one_request_next = omega arith

request-find_example :
    ((request plain one_request).0 ≡ ok one_request.next_stream_id)
    × (find one_request.next_stream_id (request plain one_request).1.requests
        ≡ some (
          Request.new_sender plain one_request.next_stream_id,
          Request.new_receiver plain one_request.next_stream_id,
        ))
    × ((other : ℕ)
        → other < one_request.next_stream_id
        → find other (request plain one_request).1.requests ≡ find other one_request.requests)
    × Fresh plain (request plain one_request).1
request-find_example =
    request-find plain one_request (Reachable-Fresh plain one_request one_request-Reachable)
      one_request_next
