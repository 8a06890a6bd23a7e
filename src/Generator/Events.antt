-- ===== src/Generator/Events.antt =====
-- Which events a generator gives.
use bnl.Prelude.{ℕ, ◌≡◌, refl, true, false}
use bnl.Error.{ok}
use bnl.Object.{Op}
use bnl.Event.{Event, finished_event}
use bnl.Generator.{Generator, next, get}

module _ {C : Type 0} (process : ℕ → Op C Event) (g : Generator) (c c' : C) (id : ℕ) where
  -- The event `finished` is given once: `next` stores it for `get`, and from then on answers no
  -- and leaves the connection alone.
  pub next-next_finished :
      g.finished ≡ false
      → process g.id c ≡ (ok (finished_event id), c')
      → ((next process g c).0 ≡ true)
        × ((get (next process g c).1.0).0 ≡ ok (finished_event id))
        × (next process (get (next process g c).1.0).1 c'
            ≡ (false, ((get (next process g c).1.0).1, c')))
  unfolding next get
  next-next_finished f e = rw (f, e) (refl, refl, refl)
