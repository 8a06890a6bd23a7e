-- ===== src/Body/Examples.antt =====
-- Runs of the body codec, and its theorems at concrete inputs.
use bnl.Prelude.{◌+◌, ◌*◌, ◌≡◌, refl, arith, true, [], ◌∷◌, length}
use bnl.Error.{Error, ok, err}
use bnl.Buffers.{Buffers, size}
use bnl.Buffers.View.{view}
use bnl.Body.{Encoder, at_frame, new_encoder, add, fin, decode, new_decoder, in_data}
use bnl.Body.Transfer.{transmit, collect, transmit-collect}
use bnl.Body.Invariant.{Reachable, created, added, ended, WellFormed, Reachable-WellFormed}
use bnl.Varint
use bnl.Frame.Read
use bnl.Frame.{to_type}

-- The middle buffer is empty.
abbrev given : Encoder
given = record { state = at_frame; fin_called = true; buffers = (1 ∷ 2 ∷ []) ∷ [] ∷ (3 ∷ []) ∷ [] }

transmit-collect_example :
    (sent : Buffers) × (parts : Buffers) × (transmit (2 * length given.buffers + 1) given ≡ ok sent)
    × (collect (length given.buffers + 1) new_decoder (view sent) ≡ ok parts)
    × (view parts ≡ view given.buffers)
unfolding size
transmit-collect_example = transmit-collect given refl refl (omega arith) (omega arith)

abbrev called : Encoder
called = (fin (add (1 ∷ []) new_encoder).1).1

called-Reachable : Reachable called
called-Reachable = ended _ (added (1 ∷ []) new_encoder created)

Reachable-WellFormed_example : WellFormed called
Reachable-WellFormed_example = Reachable-WellFormed called called-Reachable

called_fin : called.fin_called ≡ true
unfolding fin add
called_fin = refl

-- A DATA frame of size 0 at the end: `incomplete`, and the frame is taken off.
decode_empty_frame :
    decode (new_decoder, 0 ∷ 0 ∷ [])
    ≡ (err Error.incomplete, (record { state = in_data; remaining = 0 }, []))
unfolding decode Read.peek Read.decode Varint.decode to_type
decode_empty_frame = refl
