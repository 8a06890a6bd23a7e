-- ===== src/Server.antt =====
-- bnl/http3/src/server/connection.cpp: the control streams and the requests of a server.
pub mod Erased
mod Examples
use bnl.Prelude.{ℕ, Bool, true, false, List, [], ◌∷◌, Option, none, some, ◌==◌, if◌then◌else◌}
use bnl.Error.{
  Error, Result, ok, err, stuck, internal, idle, is_idle, not_implemented, stream_closed,
}
use bnl.Object.{Op, attempt}
use bnl.Settings.{Settings, default_settings}
use bnl.Event.{Data, QuicEvent, Event, quic_data, quic_error, settings_event}
use bnl.Streams.{find, insert, erase, update}
use bnl.Headers.{Qpack}
use bnl.Control
use bnl.Request

module _ (q : Qpack) where
  abbrev pub Entry : Type 0
  Entry = Request.Sender q × Request.Receiver q

  pub record Connection : Type 0 where
    pub local : Settings
    pub peer : Settings
    pub control_sender : Control.Sender
    pub control_receiver : Control.Receiver
    pub requests : List (ℕ × Entry)

  abbrev pub new_connection : Connection
  new_connection = record {
    local = default_settings;
    peer = default_settings;
    control_sender = Control.new_sender Control.server_control_id;
    control_receiver = Control.new_receiver Control.client_control_id;
    requests = [];
  }

  -- What `send` does with the result of one request's sender: a request whose sender is finished
  -- is erased. `rest` is the outcome of the later ones.
  abbrev sent_one :
      ℕ
      → Request.Receiver q
      → Result Data × Request.Sender q
      → List (ℕ × Entry)
      → Result Data × List (ℕ × Entry)
      → Result Data × List (ℕ × Entry)
  sent_one id r (ok data', s) entries rest =
      (ok data', if Request.finished q s then entries else (id, (s, r)) ∷ entries)
  sent_one id r (err error, s) entries rest =
      if is_idle error then (rest.0, (id, (s, r)) ∷ rest.1) else (err error, (id, (s, r)) ∷ entries)
  sent_one id r (stuck, s) entries rest = (stuck, (id, (s, r)) ∷ entries)

  -- `for (auto &entry : requests_)`.
  unfoldable pub send_loop : Op (List (ℕ × Entry)) Data
  send_loop [] = (err idle, [])
  send_loop ((id, (s, r)) ∷ entries) =
      let rest = send_loop entries in
      if Request.finished q s
      then (rest.0, (id, (s, r)) ∷ rest.1)
      else sent_one id r (Request.send q s) entries rest

  -- `send` behind `control.send()`.
  abbrev control_sent : Result Data → Op Connection Data
  control_sent (ok data') c = (ok data', c)
  control_sent (err error) c =
      let sent = send_loop c.requests in
      if is_idle error then (sent.0, record c { requests = sent.1 }) else (err error, c)
  control_sent stuck c = (stuck, c)

  unfoldable pub send : Op Connection Data
  unfolding send_loop
  send c =
      let sent = Control.send c.control_sender in
      control_sent sent.0 (record c { control_sender = sent.1 })

  -- A request for a stream that has none is inserted.
  abbrev pub with_request : ℕ → Option Entry → Entry
  with_request id none =
      (Request.new_sender q id, (Request.receiver_start q (Request.new_receiver q id)).1)
  with_request id (some entry) = entry

  unfoldable pub recv_data : Data → Op Connection (Unit {0})
  recv_data data' c =
      let control_received = Control.recv data' c.control_receiver in
      let entry = with_request data'.id (find data'.id c.requests) in
      let received = Request.recv q data' entry.1 in
      if data'.id == c.control_receiver.id
      then (control_received.0, record c { control_receiver = control_received.1 })
      else (
        received.0,
        record c {
          requests = update data'.id (entry.0, received.1) (insert data'.id entry c.requests);
        },
      )

  -- `recv` of an event: the stream that the generator is for.
  unfoldable pub recv : QuicEvent → Op Connection ℕ
  unfolding recv_data
  recv (quic_data data') c =
      let received = recv_data data' c in attempt received.0 (λ done s. (ok data'.id, s)) received.1
  recv (quic_error id) c = (err not_implemented, c)

  abbrev store_settings : Event → Op Connection Event
  store_settings (settings_event s) c = (ok (settings_event s), record c { peer = s })
  store_settings event c = (ok event, c)

  -- `requests_.at(id)` throws where there is no request, and `next` is noexcept: the program ends.
  abbrev process_request : ℕ → Option Entry → Op Connection Event
  process_request id none c = (stuck, c)
  process_request id (some (s, r)) c =
      let processed = Request.process q (Request.server_process q) r in
      (processed.0, record c { requests = update id (s, processed.1) c.requests })

  unfoldable pub process : ℕ → Op Connection Event
  process id c =
      let processed = Control.process Control.server_process c.control_receiver in
      if id == c.control_receiver.id
      then attempt processed.0 store_settings (record c { control_receiver = processed.1 })
      else process_request id (find id c.requests) c

  -- The identifier of the handle that is returned.
  abbrev handle_of : ℕ → Option Entry → Result ℕ
  handle_of id none = err stream_closed
  handle_of id (some entry) = ok id

  unfoldable pub response : ℕ → Op Connection ℕ
  response id c = (handle_of id (find id c.requests), c)
