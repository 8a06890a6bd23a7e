-- ===== src/Generator/Examples.antt =====
-- The generator at concrete inputs: a stream whose only event is `finished`.
use bnl.Prelude.{ℕ}
use bnl.Error.{ok}
use bnl.Object.{Op}
use bnl.Event.{Event, finished_event}

abbrev done : ℕ → Op ℕ Event
done id c = (ok (finished_event id), c)
