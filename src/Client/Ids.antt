-- ===== src/Client/Ids.antt =====
-- The identifiers of the requests of a client.
use bnl.Prelude.{
  ℕ, ◌+◌, ◌^◌, ◌<◌, ◌≡◌, refl, arith, Bool-cases, inl, inr, List, [], ◌∷◌, Option, none, some, ◌==◌,
  bit_and,
}
use bnl.Error.{Result, ok, err, stuck, is_idle}
use bnl.Object.{Op, attempt}
use bnl.Event.{Data, QuicEvent, Event, quic_data, quic_error, settings_event, is_finished}
use bnl.Streams.{find, update}
use bnl.Streams.Keys.{
  Below, Below-more, erase-Below, update-Below, insert-Below, find-insert, find-insert_other,
}
use bnl.Headers.{Qpack}
use bnl.Control
use bnl.Request
use bnl.Request.{HandleCall, operation}
use bnl.Client.{
  Connection, new_connection, request, send, send_loop, sent_one, control_sent, recv, recv_data,
  recv_request, process, store_settings, erase_finished, process_request, Entry,
}

module _ (q : Qpack) where
  -- All requests have identifiers below the next one.
  abbrev pub Fresh : Connection q → Type 0
  Fresh c = Below c.next_stream_id c.requests

  -- While identifiers do not wrap around, `request` makes a new request under its identifier, keeps
  -- those that are there, and the next identifier is fresh again.
  pub request-find :
      (c : Connection q)
      → Fresh c
      → c.next_stream_id + 4 < 2 ^ 64
      → ((request q c).0 ≡ ok c.next_stream_id)
        × (find c.next_stream_id (request q c).1.requests
            ≡ some (Request.new_sender q c.next_stream_id, Request.new_receiver q c.next_stream_id))
        × ((other : ℕ)
            → other < c.next_stream_id
            → find other (request q c).1.requests ≡ find other c.requests)
        × Fresh (request q c).1
  unfolding request
  request-find c h l = (
    refl,
    find-insert c.next_stream_id _ c.requests h,
    λ other k. find-insert_other other c.next_stream_id _ c.requests k,
    insert-Below _ c.next_stream_id _ c.requests (omega arith)
        (Below-more c.next_stream_id _ c.requests (omega arith) h),
  )

  sent_one-Below :
      (n id : ℕ) (r : Request.Receiver q) (p : Result Data × Request.Sender q)
      (entries : List (ℕ × Entry q)) (rest : Result Data × List (ℕ × Entry q))
      → id < n
      → Below n entries
      → Below n rest.1
      → Below n (sent_one q id r p entries rest).1
  sent_one-Below n id r (ok d, s) entries rest l h k = (l, h)
  sent_one-Below n id r (err error, s) entries rest l h k = elim (Bool-cases (is_idle error)) [
    | inl e ↦ rw e (l, k)
    | inr e ↦ rw e (l, h)
  ]
  sent_one-Below n id r (stuck, s) entries rest l h k = (l, h)

  send_loop-Below :
      (n : ℕ) (entries : List (ℕ × Entry q)) → Below n entries → Below n (send_loop q entries).1
  unfolding send_loop
  send_loop-Below n [] h = tt
  send_loop-Below n ((id, (s, r)) ∷ entries) h = elim (Bool-cases (Request.finished q s)) [
    | inl e ↦ rw e (h.0, send_loop-Below n entries h.1)
    | inr e ↦
        rw e (
          sent_one-Below n id r (Request.send q s) entries _ h.0 h.1
            (send_loop-Below n entries h.1))
  ]

  control_sent-Fresh : (p : Result Data) (c : Connection q) → Fresh c → Fresh (control_sent q p c).1
  control_sent-Fresh (ok d) c h = h
  control_sent-Fresh (err error) c h = elim (Bool-cases (is_idle error)) [
    | inl e ↦ rw e (send_loop-Below c.next_stream_id c.requests h)
    | inr e ↦ rw e h
  ]
  control_sent-Fresh stuck c h = h

  send-Fresh : (c : Connection q) → Fresh c → Fresh (send q c).1
  unfolding send
  send-Fresh c h =
      control_sent-Fresh (Control.send c.control_sender).0
        (record c { control_sender = (Control.send c.control_sender).1 }) h

  recv_request-Fresh :
      (d : Data) (o : Option (Entry q)) (c : Connection q)
      → Fresh c
      → Fresh (recv_request q d o c).1
  recv_request-Fresh d none c h = h
  recv_request-Fresh d (some (s, r)) c h = update-Below c.next_stream_id d.id _ c.requests h

  recv_data-Fresh : (d : Data) (c : Connection q) → Fresh c → Fresh (recv_data q d c).1
  unfolding recv_data
  recv_data-Fresh d c h = elim (Bool-cases (d.id == c.control_receiver.id)) [
    | inl e ↦ rw e h
    | inr e ↦ elim (Bool-cases (bit_and d.id 0x2 == 0)) [
      | inl f ↦ rw (e, f) (recv_request-Fresh d (find d.id c.requests) c h)
      | inr f ↦ rw (e, f) h
    ]
  ]

  abbrev answer : ℕ → Unit {0} → Op (Connection q) ℕ
  answer id done c = (ok id, c)

  received-Fresh :
      (id : ℕ) (p : Result (Unit {0})) (c : Connection q)
      → Fresh c
      → Fresh (attempt p (answer id) c).1
  received-Fresh id (ok done) c h = h
  received-Fresh id (err error) c h = h
  received-Fresh id stuck c h = h

  recv-Fresh : (e : QuicEvent) (c : Connection q) → Fresh c → Fresh (recv q e c).1
  unfolding recv
  recv-Fresh (quic_data d) c h =
      received-Fresh d.id (recv_data q d c).0 (recv_data q d c).1 (recv_data-Fresh d c h)
  recv-Fresh (quic_error id) c h = h

  stored-Fresh :
      (p : Result Event) (c : Connection q) → Fresh c → Fresh (attempt p (store_settings q) c).1
  stored-Fresh (ok (settings_event s)) c h = h
  stored-Fresh (ok _) c h = h
  stored-Fresh (err error) c h = h
  stored-Fresh stuck c h = h

  erased-Fresh :
      (id : ℕ) (p : Result Event) (c : Connection q)
      → Fresh c
      → Fresh (attempt p (erase_finished q id) c).1
  erased-Fresh id (ok event) c h = elim (Bool-cases (is_finished event)) [
    | inl e ↦ rw e (erase-Below c.next_stream_id id c.requests h)
    | inr e ↦ rw e h
  ]
  erased-Fresh id (err error) c h = h
  erased-Fresh id stuck c h = h

  process_request-Fresh :
      (id : ℕ) (o : Option (Entry q)) (c : Connection q)
      → Fresh c
      → Fresh (process_request q id o c).1
  process_request-Fresh id none c h = h
  process_request-Fresh id (some (s, r)) c h =
      erased-Fresh id _ _ (update-Below c.next_stream_id id _ c.requests h)

  process-Fresh : (id : ℕ) (c : Connection q) → Fresh c → Fresh (process q id c).1
  unfolding process
  process-Fresh id c h = elim (Bool-cases (id == c.control_receiver.id)) [
    | inl e ↦ rw e (stored-Fresh _ _ h)
    | inr e ↦ elim (Bool-cases (bit_and id 0x2 == 0)) [
      | inl f ↦ rw (e, f) (process_request-Fresh id (find id c.requests) c h)
      | inr f ↦ rw (e, f) h
    ]
  ]

  -- What a member function of a handle, which the application holds, makes of the connection: it
  -- changes the sender of its request, and nothing once that was erased. Its result, which
  -- `Request.by_handle` gives, is left out.
  abbrev pub handle_called : HandleCall → ℕ → Option (Entry q) → Connection q → Connection q
  handle_called call id none c = c
  handle_called call id (some (s, r)) c = record c {
    requests = update id ((operation q call s).1, r) c.requests;
  }

  handle_called-Fresh :
      (call : HandleCall) (id : ℕ) (o : Option (Entry q)) (c : Connection q)
      → Fresh c
      → Fresh (handle_called call id o c)
  handle_called-Fresh call id none c h = h
  handle_called-Fresh call id (some (s, r)) c h = update-Below c.next_stream_id id _ c.requests h

  -- The states that calls of the member functions and of the handles lead to, with identifiers that
  -- do not wrap around.
  pub data Reachable : Connection q → Type 0 where
    created : Reachable (new_connection q)
    requested :
        (c : Connection q) → Reachable c → c.next_stream_id + 4 < 2 ^ 64 → Reachable (request q c).1
    sent : (c : Connection q) → Reachable c → Reachable (send q c).1
    received : (e : QuicEvent) (c : Connection q) → Reachable c → Reachable (recv q e c).1
    processed : (id : ℕ) (c : Connection q) → Reachable c → Reachable (process q id c).1
    handled :
        (call : HandleCall) (id : ℕ) (c : Connection q)
        → Reachable c
        → Reachable (handle_called call id (find id c.requests) c)

  -- While identifiers do not wrap around: in every state that the member functions of the
  -- connection and those of the handles of its requests lead to, all requests have identifiers
  -- below the next one.
  pub Reachable-Fresh : (c : Connection q) → Reachable c → Fresh c
  Reachable-Fresh _ created = tt
  Reachable-Fresh _ (requested c r l) =
      let (answered, found, kept, fresh) = request-find c (Reachable-Fresh c r) l in fresh
  Reachable-Fresh _ (sent c r) = send-Fresh c (Reachable-Fresh c r)
  Reachable-Fresh _ (received e c r) = recv-Fresh e c (Reachable-Fresh c r)
  Reachable-Fresh _ (processed id c r) = process-Fresh id c (Reachable-Fresh c r)
  Reachable-Fresh _ (handled call id c r) =
      handle_called-Fresh call id (find id c.requests) c (Reachable-Fresh c r)
