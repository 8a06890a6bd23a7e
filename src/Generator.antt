-- ===== src/Generator.antt =====
-- bnl/http3/include/bnl/http3/endpoint/generator.hpp: the events of one stream, pulled one at a
-- time. `C` is the connection, `process` its member function.
pub mod Events
mod Examples
use bnl.Prelude.{ℕ, Bool, true, false, ◌&&◌, not, if◌then◌else◌}
use bnl.Error.{Error, Result, ok, err, stuck, internal, is_incomplete}
use bnl.Object.{Op}
use bnl.Event.{Event, is_finished}

pub record Generator : Type 0 where
  pub r : Result Event
  pub finished : Bool
  pub id : ℕ

abbrev pub new_generator : ℕ → Generator
new_generator id = record { r = err internal; finished = false; id = id }

-- `!r && r.error() == error::incomplete` and `r && r.value() == event::type::finished`.
abbrev wants_more : Result Event → Bool
wants_more (ok event) = false
wants_more (err error) = is_incomplete error
wants_more stuck = false

abbrev is_last : Result Event → Bool
is_last (ok event) = is_finished event
is_last (err error) = false
is_last stuck = false

module _ {C : Type 0} (process : ℕ → Op C Event) where
  unfoldable pub next : Generator → C → Bool × (Generator × C)
  next g c =
      let processed = process g.id c in
      if g.finished
      then (false, (g, c))
      else if wants_more processed.0
      then (false, (record g { r = processed.0 }, processed.1))
      else (true, (record g { r = processed.0; finished = is_last processed.0 }, processed.1))

unfoldable pub get : Generator → Result Event × Generator
get g = (g.r, record g { r = err internal })
