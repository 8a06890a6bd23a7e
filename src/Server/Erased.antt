-- ===== src/Server/Erased.antt =====
-- What is left of a request on the server when its response is sent.
use bnl.Prelude.{ℕ, ◌≡◌, refl, true, false, [], ◌∷◌, ◌==◌}
use bnl.Error.{ok, stuck}
use bnl.Event.{Data}
use bnl.Headers.{Qpack}
use bnl.Control
use bnl.Request
use bnl.Server.{Connection, send, send_loop, process}

module _ (q : Qpack) where
  -- Where the control stream is idle and there is one request: with the last piece of the response
  -- the whole request is erased, whatever its receiver still expects, and the next event of that
  -- stream has no result, since `requests_.at` throws.
  pub send-process_erased :
      (c : Connection q) (id : ℕ) (s s' : Request.Sender q) (r : Request.Receiver q) (d : Data)
      → c.control_sender.state ≡ Control.at_idle
      → c.requests ≡ (id, (s, r)) ∷ []
      → Request.finished q s ≡ false
      → Request.send q s ≡ (ok d, s')
      → Request.finished q s' ≡ true
      → (id == c.control_receiver.id) ≡ false
      → ((send q c).0 ≡ ok d)
        × ((send q c).1.requests ≡ [])
        × ((process q id (send q c).1).0 ≡ stuck)
  unfolding send send_loop process Control.send
  send-process_erased c id s s' r d i e n w f k = rw (i, e, n, w, f, k) (refl, refl, refl)
