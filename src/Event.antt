-- ===== src/Event.antt =====
-- bnl/base/include/bnl/quic/event.hpp, bnl/base/include/bnl/http3/event.hpp and header.hpp: what
-- the connections take and give.
use bnl.Prelude.{ℕ, Bool, true, false, ◌&&◌, List, [], ◌∷◌, leb, if◌then◌else◌}
use bnl.Settings.{Settings}
use bnl.Buffers.{Buffer}

-- `quic::data`.
pub record Data : Type 0 where
  pub id : ℕ
  pub fin : Bool
  pub buffer : Buffer

-- `quic::event`; of an error only the stream is used.
pub data QuicEvent : Type 0 where
  quic_data : Data → QuicEvent
  quic_error : (id : ℕ) → QuicEvent

abbrev pub event_id : QuicEvent → ℕ
event_id (quic_data data') = data'.id
event_id (quic_error id) = id

-- A `header` and a `header_view`: the characters of the name and of the value.
pub record Header : Type 0 where
  pub name : List ℕ
  pub value : List ℕ

-- `http3::event`.
pub data Event : Type 0 where
  settings_event : Settings → Event
  header_event : (id : ℕ) → (fin : Bool) → Header → Event
  body_event : Data → Event
  finished_event : (id : ℕ) → Event

abbrev pub is_finished : Event → Bool
is_finished (finished_event id) = true
is_finished _ = false

-- The loop of `header_is_lowercase`.
unfoldable pub lowercase_loop : List ℕ → Bool
lowercase_loop [] = true
lowercase_loop (character ∷ characters) =
    let rest = lowercase_loop characters in
    if leb 65 character && leb character 90 then false else rest

unfoldable pub header_is_lowercase : Header → Bool
unfolding lowercase_loop
header_is_lowercase header = lowercase_loop header.name
