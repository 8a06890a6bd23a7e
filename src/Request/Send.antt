-- ===== src/Request/Send.antt =====
-- The sender of a request.
use bnl.Prelude.{◌≡◌, refl, sym, ap, ◌∙◌, Bool, false, Bool-cases, inl, inr}
use bnl.Error.{Result, ok, err, stuck, internal}
use bnl.Object.{Op, attempt}
use bnl.Buffers.{Buffer, size, empty}
use bnl.Event.{Data}
use bnl.Headers
use bnl.Headers.{Qpack}
use bnl.Body
use bnl.Request.{
  Sender, SenderState, send, headers_sent, body_sent, fin, finished, at_headers, at_body, at_fin,
}

abbrev fin_of : Result Data → Bool → Bool
fin_of (ok d) other = d.fin
fin_of (err code) other = other
fin_of stuck other = other

module _ (q : Qpack) where
  abbrev FinIsFinished : Result Data × Sender q → Type 0
  FinIsFinished p = fin_of p.0 (finished q p.1) ≡ finished q p.1

  headers_fin :
      (b : Buffer) (s : Sender q) → s.state ≡ at_headers → FinIsFinished (headers_sent q b s)
  unfolding headers_sent finished
  headers_fin b s t = elim (Bool-cases (Headers.finished q s.headers)) [
    | inl h ↦ elim (Bool-cases (Body.finished s.body)) [
      | inl k ↦ rw (h, k) refl
      | inr k ↦ rw (h, k) refl
    ]
    | inr h ↦ rw (h, t) refl
  ]

  body_fin : (b : Buffer) (s : Sender q) → s.state ≡ at_body → FinIsFinished (body_sent q b s)
  unfolding body_sent finished
  body_fin b s t = elim (Bool-cases (Body.finished s.body)) [
    | inl k ↦ rw k refl
    | inr k ↦ rw (k, t) refl
  ]

  attempt_fin :
      (r : Result Buffer) (next : Buffer → Op (Sender q) Data) (s : Sender q)
      → ((b : Buffer) → FinIsFinished (next b s))
      → FinIsFinished (attempt r next s)
  attempt_fin (ok b) next s h = h b
  attempt_fin (err code) next s h = refl
  attempt_fin stuck next s h = refl

  send_fin_lem : (s : Sender q) → FinIsFinished (send q s)
  unfolding send
  send_fin_lem s = go s.state s refl
    where
      go : (t : SenderState) (s : Sender q) → s.state ≡ t → FinIsFinished (send q s)
      go at_headers s e = rw e (
          attempt_fin (Headers.encode q s.headers).0 (headers_sent q)
            (record s { headers = (Headers.encode q s.headers).1; state = at_headers })
            (λ b. headers_fin b _ refl))
      go at_body s e = rw e (
          attempt_fin (Body.encode s.body).0 (body_sent q)
            (record s { body = (Body.encode s.body).1; state = at_body }) (λ b. body_fin b _ refl))
      go at_fin s e = rw e refl

  -- A piece carries the end of the stream exactly if the sender is finished with it.
  pub send-finished :
      (s : Sender q) (d : Data) → (send q s).0 ≡ ok d → d.fin ≡ finished q (send q s).1
  send-finished s d e =
      sym (ap (λ (r : Result Data). fin_of r (finished q (send q s).1)) e) ∙ send_fin_lem s

  -- Where the body is ended after its last piece was sent, `fin` succeeds, the sender is not
  -- finished, and `send` answers `internal` and changes nothing.
  pub fin_late :
      (s : Sender q)
      → s.state ≡ at_body
      → s.body.state ≡ Body.at_frame
      → size s.body.buffers ≡ 0
      → ((fin q s).0 ≡ ok tt)
        × (finished q (fin q s).1 ≡ false)
        × (send q (fin q s).1 ≡ (err internal, (fin q s).1))
  unfolding fin send finished Body.fin Body.encode empty
  fin_late s t b z = rw (t, b, z) (refl, refl, cc)
