-- ===== src/Client.antt =====
-- bnl/http3/src/client/connection.cpp: the control streams and the requests of a client.
pub mod Ids
mod Examples
use bnl.Prelude.{
  ℕ, ◌+◌, ◌%◌, ◌^◌, Bool, true, false, not, List, [], ◌∷◌, Option, none, some, ◌==◌, bit_and,
  if◌then◌else◌,
}
use bnl.Error.{Error, Result, ok, err, stuck, internal, idle, incomplete, is_idle, not_implemented}
use bnl.Object.{Op, attempt}
use bnl.Settings.{Settings, default_settings}
use bnl.Event.{Data, QuicEvent, Event, quic_data, quic_error, settings_event, is_finished}
use bnl.Streams.{find, insert, erase, update}
use bnl.Headers.{Qpack}
use bnl.Control
use bnl.Request

module _ (q : Qpack) where
  abbrev pub Entry : Type 0
  Entry = Request.Sender q × Request.Receiver q

  pub record Connection : Type 0 where
    pub local : Settings
    pub peer : Settings
    pub control_sender : Control.Sender
    pub control_receiver : Control.Receiver
    pub requests : List (ℕ × Entry)
    pub next_stream_id : ℕ

  abbrev pub new_connection : Connection
  new_connection = record {
    local = default_settings;
    peer = default_settings;
    control_sender = Control.new_sender Control.client_control_id;
    control_receiver = Control.new_receiver Control.server_control_id;
    requests = [];
    next_stream_id = 0;
  }

  abbrev start_if_closed : Request.Receiver q → Request.Receiver q
  start_if_closed r = if Request.closed q r then (Request.receiver_start q r).1 else r

  -- What `send` does with the result of one sender; `rest` is the outcome of the later ones.
  abbrev sent_one :
      ℕ
      → Request.Receiver q
      → Result Data × Request.Sender q
      → List (ℕ × Entry)
      → Result Data × List (ℕ × Entry)
      → Result Data × List (ℕ × Entry)
  sent_one id r (ok data', s) entries rest = (ok data', (id, (s, start_if_closed r)) ∷ entries)
  sent_one id r (err error, s) entries rest =
      if is_idle error then (rest.0, (id, (s, r)) ∷ rest.1) else (err error, (id, (s, r)) ∷ entries)
  sent_one id r (stuck, s) entries rest = (stuck, (id, (s, r)) ∷ entries)

  -- `for (auto &entry : requests_)`.
  unfoldable pub send_loop : Op (List (ℕ × Entry)) Data
  send_loop [] = (err idle, [])
  send_loop ((id, (s, r)) ∷ entries) =
      let rest = send_loop entries in
      if Request.finished q s
      then (rest.0, (id, (s, r)) ∷ rest.1)
      else sent_one id r (Request.send q s) entries rest

  -- `send` behind `control.send()`.
  abbrev control_sent : Result Data → Op Connection Data
  control_sent (ok data') c = (ok data', c)
  control_sent (err error) c =
      let sent = send_loop c.requests in
      if is_idle error then (sent.0, record c { requests = sent.1 }) else (err error, c)
  control_sent stuck c = (stuck, c)

  unfoldable pub send : Op Connection Data
  unfolding send_loop
  send c =
      let sent = Control.send c.control_sender in
      control_sent sent.0 (record c { control_sender = sent.1 })

  abbrev recv_request : Data → Option Entry → Op Connection (Unit {0})
  recv_request data' none c = (err internal, c)
  recv_request data' (some (s, r)) c =
      let received = Request.recv q data' r in
      (received.0, record c { requests = update data'.id (s, received.1) c.requests })

  unfoldable pub recv_data : Data → Op Connection (Unit {0})
  recv_data data' c =
      let received = Control.recv data' c.control_receiver in
      if data'.id == c.control_receiver.id
      then (received.0, record c { control_receiver = received.1 })
      else if not (bit_and data'.id 0x2 == 0)
      then (ok tt, c)
      else recv_request data' (find data'.id c.requests) c

  -- `recv` of an event: the stream that the generator is for.
  unfoldable pub recv : QuicEvent → Op Connection ℕ
  unfolding recv_data
  recv (quic_data data') c =
      let received = recv_data data' c in attempt received.0 (λ done s. (ok data'.id, s)) received.1
  recv (quic_error id) c = (err not_implemented, c)

  abbrev store_settings : Event → Op Connection Event
  store_settings (settings_event s) c = (ok (settings_event s), record c { peer = s })
  store_settings event c = (ok event, c)

  abbrev erase_finished : ℕ → Event → Op Connection Event
  erase_finished id event c = (
    ok event,
    record c { requests = if is_finished event then erase id c.requests else c.requests },
  )

  abbrev process_request : ℕ → Option Entry → Op Connection Event
  process_request id none c = (err internal, c)
  process_request id (some (s, r)) c =
      let processed = Request.process q (Request.client_process q) r in
      attempt processed.0 (erase_finished id)
        (record c { requests = update id (s, processed.1) c.requests })

  unfoldable pub process : ℕ → Op Connection Event
  process id c =
      let processed = Control.process Control.client_process c.control_receiver in
      if id == c.control_receiver.id
      then attempt processed.0 store_settings (record c { control_receiver = processed.1 })
      else if not (bit_and id 0x2 == 0)
      then (err incomplete, c)
      else process_request id (find id c.requests) c

  -- The identifier of the handle that is returned.
  unfoldable pub request : Op Connection ℕ
  request c = (
    ok c.next_stream_id,
    record c {
      requests =
          insert c.next_stream_id
            (Request.new_sender q c.next_stream_id, Request.new_receiver q c.next_stream_id)
            c.requests;
      next_stream_id = (c.next_stream_id + 4) % 2 ^ 64;
    },
  )
