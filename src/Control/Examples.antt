-- ===== src/Control/Examples.antt =====
-- Runs of the control streams, and their theorems at concrete inputs.
use bnl.Prelude.{ℕ, ◌≡◌, refl, List, [], ◌∷◌, ◌++◌}
use bnl.Error.{ok, err, missing_settings}
use bnl.Settings.{default_settings}
use bnl.Frame.{Frame}
use bnl.Frame.Write
use bnl.Varint
use bnl.Event.{settings_event}
use bnl.Control.{
  Receiver, new_receiver, process, in_settings, in_active, client_process, server_control_id,
}
use bnl.Control.Start.{process_start, process_missing}

-- The SETTINGS frame of the default settings.
abbrev settings_bytes : List ℕ
settings_bytes =
    0x04 ∷ 0x0d ∷ 0x06 ∷ 0xff ∷ 0xff ∷ 0xff ∷ 0xff ∷ 0xff ∷ 0xff ∷ 0xff ∷ 0xff ∷ 0x01 ∷ 0x00 ∷ 0x07
    ∷ 0x00 ∷ []

encode_settings : Write.encode (Frame.settings default_settings) ≡ ok settings_bytes
unfolding Write.encode Write.payload_size Write.payload_encode Write.settings_size
    Write.settings_encode Write.is_skipped Varint.encode Varint.encoded_size
encode_settings = refl

abbrev started : Receiver
started = record (new_receiver server_control_id) { buffers = 0 ∷ (settings_bytes ++ 7 ∷ []) }

process_start_example :
    process client_process started
    ≡ (ok (settings_event default_settings), record started { state = in_active; buffers = 7 ∷ [] })
process_start_example =
    process_start client_process started default_settings settings_bytes (7 ∷ []) refl
      encode_settings refl

-- A GOAWAY frame comes first.
encode_goaway : Write.encode (Frame.goaway 4) ≡ ok (0x07 ∷ 0x01 ∷ 0x04 ∷ [])
unfolding Write.encode Write.payload_size Write.payload_encode Varint.encode Varint.encoded_size
encode_goaway = refl

abbrev wrong_start : Receiver
wrong_start = record (new_receiver server_control_id) {
  state = in_settings;
  buffers = 0x07 ∷ 0x01 ∷ 0x04 ∷ 9 ∷ [];
}

process_missing_example :
    process client_process wrong_start
    ≡ (err missing_settings, record wrong_start { buffers = 9 ∷ [] })
process_missing_example =
    process_missing client_process wrong_start (Frame.goaway 4) (0x07 ∷ 0x01 ∷ 0x04 ∷ []) (9 ∷ [])
      refl encode_goaway tt (λ s p. cc) refl
