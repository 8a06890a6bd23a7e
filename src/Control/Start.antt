-- ===== src/Control/Start.antt =====
-- The beginning of a control stream, from the sender to the receiver.
use bnl.Prelude.{ℕ, ◌≡◌, ◌≢◌, refl, arith, false, List, [], ◌∷◌, ◌++◌, ◌∙◌}
use bnl.Error.{Result, ok, err, idle, missing_settings}
use bnl.Settings.{Settings}
use bnl.Frame.{Frame}
use bnl.Frame.Write
use bnl.Frame.RoundTrip.{Fits, decode-encode_frame}
use bnl.Frame.Sizes.{encode_buffer-eq-encode_frame}
use bnl.Varint.Encode.{encode_small, encode_buffer-eq-encode}
use bnl.Varint.RoundTrip.{decode-encode}
use bnl.Event.{Data, Event, settings_event}
use bnl.Control.{
  Sender, send, Receiver, process, process_settings, in_type, in_settings, in_active, at_type,
  at_idle, first_frame,
}

abbrev pub chunk : ℕ → List ℕ → Data
chunk id buffer = record { id = id; fin = false; buffer = buffer }

-- A sender of any settings whose SETTINGS frame can be written sends the stream type, then that
-- frame, and from then on is idle.
pub send-send-send :
    (s : Sender) (frame : List ℕ)
    → s.state ≡ at_type
    → Write.encode (Frame.settings s.settings) ≡ ok frame
    → ((send s).0 ≡ ok (chunk s.id (0 ∷ [])))
      × ((send (send s).1).0 ≡ ok (chunk s.id frame))
      × (send (send (send s).1).1 ≡ (err idle, record s { state = at_idle }))
unfolding send
send-send-send s frame t e =
    let f = encode_buffer-eq-encode_frame (Frame.settings s.settings) ∙ e in
    let v = encode_buffer-eq-encode 0 ∙ encode_small 0 (omega arith) in
    rw (t, v, f) (refl, refl, refl)

-- A new receiver that got the stream type and a SETTINGS frame, with anything behind it, answers
-- the settings of the frame, keeps the bytes behind it and is active.
pub process_start :
    (next : Frame → Result Event) (r : Receiver) (s : Settings) (frame rest : List ℕ)
    → r.state ≡ in_type
    → Write.encode (Frame.settings s) ≡ ok frame
    → r.buffers ≡ 0 ∷ (frame ++ rest)
    → process next r ≡ (ok (settings_event s), record r { state = in_active; buffers = rest })
unfolding process process_settings
process_start next r s frame rest t e b =
    rw
      (
        t,
        b,
        decode-encode 0 (0 ∷ []) (frame ++ rest) (encode_small 0 (omega arith)),
        decode-encode_frame (Frame.settings s) frame rest tt e,
      )
      refl

-- A first frame of another type, whose sizes and weight fit as for a round trip, is taken off and
-- answered by `missing_settings`, and the receiver still waits for SETTINGS.
pub process_missing :
    (next : Frame → Result Event) (r : Receiver) (f : Frame) (frame rest : List ℕ)
    → r.state ≡ in_settings
    → Write.encode f ≡ ok frame
    → Fits f
    → ((s : Settings) → f ≢ Frame.settings s)
    → r.buffers ≡ frame ++ rest
    → process next r ≡ (err missing_settings, record r { buffers = rest })
unfolding process process_settings
process_missing next r f frame rest t e z n b =
    rw (t, b, decode-encode_frame f frame rest z e) (not_settings f _ n)
  where
    not_settings :
        (g : Frame) (x : Receiver)
        → ((s : Settings) → g ≢ Frame.settings s)
        → first_frame g x ≡ (err missing_settings, x)
    not_settings (Frame.settings s) x k = absurd (k s refl)
    not_settings _ x k = refl
