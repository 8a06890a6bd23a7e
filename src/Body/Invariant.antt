-- ===== src/Body/Invariant.antt =====
-- What holds of the body encoder between calls.
use bnl.Prelude.{
  ℕ, ◌+◌, ◌≤◌, ◌<◌, ◌≡◌, ◌≢◌, refl, sym, arith, Bool, true, false, List, length, Bool-cases, inl,
  inr, ◌==◌, length-append, ==→eq, ap, ◌⊎◌, ◌∙◌,
}
use bnl.Error.{Result, ok, err, stuck, idle, varint_overflow}
use bnl.Frame.{data_frame}
use bnl.Frame.Write
use bnl.Frame.Sizes.{encode_buffer-eq-encode_frame}
use bnl.Varint.Encode.{encode_small, encode_cases}
use bnl.Object.{Op, attempt}
use bnl.Buffers.{Buffer, Buffers, size, empty, push, pop, front}
use bnl.Buffers.View.{size-view, view-push, view}
use bnl.Body.{Encoder, EncoderState, at_frame, at_data, at_fin, new_encoder, add, fin, encode}

-- The states that calls of the member functions lead to.
pub data Reachable : Encoder → Type 0 where
  created : Reachable new_encoder
  added : (body : Buffer) (e : Encoder) → Reachable e → Reachable (add body e).1
  ended : (e : Encoder) → Reachable e → Reachable (fin e).1
  encoded : (e : Encoder) → Reachable e → Reachable (encode e).1

-- There is something to send behind a DATA frame and after `fin` until the end, and nothing then.
abbrev pub Queued : EncoderState → Bool → Buffers → Type 0
Queued at_frame false bs = Unit {0}
Queued at_frame true bs = 0 < size bs
Queued at_data called bs = 0 < size bs
Queued at_fin true bs = size bs ≡ 0
Queued at_fin false bs = 1 ≤ 0

abbrev pub WellFormed : Encoder → Type 0
WellFormed e = Queued e.state e.fin_called e.buffers

size-push : (bs : Buffers) (b : Buffer) → size (push bs b) ≡ size bs + length b
size-push bs b = omega (
  arith,
  size-view (push bs b),
  ap length (view-push bs b),
  length-append (view bs) b,
  size-view bs,
)

add-WellFormed : (body : Buffer) (e : Encoder) → WellFormed e → WellFormed (add body e).1
unfolding add
add-WellFormed body e h = go e.state e.fin_called e.buffers h
  where
    go :
        (s : EncoderState) (c : Bool) (bs : Buffers)
        → Queued s c bs
        → WellFormed (add body (record { state = s; fin_called = c; buffers = bs })).1
    go s true bs h = h
    go at_frame false bs h = tt
    go at_data false bs h = omega (arith, size-push bs body)
    go at_fin false bs h = h

fin-WellFormed : (e : Encoder) → WellFormed e → WellFormed (fin e).1
unfolding fin empty
fin-WellFormed e h = go e.state e.fin_called e.buffers h (Bool-cases (size e.buffers == 0))
  where
    go :
        (s : EncoderState) (c : Bool) (bs : Buffers)
        → Queued s c bs
        → ((size bs == 0) ≡ true) ⊎ ((size bs == 0) ≡ false)
        → WellFormed (fin (record { state = s; fin_called = c; buffers = bs })).1
    go at_fin c bs h k = h
    go at_frame c bs h (inl e) = rw e (==→eq (size bs) 0 e)
    go at_frame c bs h (inr e) = rw e (ground arith)
    go at_data c bs h (inl e) = rw e (==→eq (size bs) 0 e)
    go at_data c bs h (inr e) = rw e (ground arith)

-- `encode` behind the DATA frame.
abbrev begun : Result Buffer → Op Encoder Buffer
begun r e = attempt r (λ frame s. (ok frame, record s { state = at_data })) e

begun-WellFormed :
    (r : Result Buffer) (c : Bool) (bs : Buffers)
    → Queued at_frame c bs
    → 0 < size bs
    → WellFormed (begun r (record { state = at_frame; fin_called = c; buffers = bs })).1
begun-WellFormed (ok frame) c bs h k = k
begun-WellFormed (err code) c bs h k = h
begun-WellFormed stuck c bs h k = h

encode-WellFormed : (e : Encoder) → WellFormed e → WellFormed (encode e).1
unfolding encode empty pop
encode-WellFormed e h = go e.state e.fin_called e.buffers h
  where
    go :
        (s : EncoderState) (c : Bool) (bs : Buffers)
        → Queued s c bs
        → WellFormed (encode (record { state = s; fin_called = c; buffers = bs })).1
    go at_fin c bs h = h
    go at_frame c bs h = elim (Bool-cases (size bs == 0)) [
      | inl e ↦ rw e h
      | inr e ↦ rw e (begun-WellFormed _ c bs h (ground arith))
    ]
    go at_data false bs h = tt
    go at_data true bs h = elim (Bool-cases (size (pop bs).1 == 0)) [
      | inl e ↦ rw e (==→eq (size (pop bs).1) 0 e)
      | inr e ↦ rw e (ground arith)
    ]

-- In every state that calls of its member functions lead the body encoder to: behind a DATA frame
-- there is something to send, after `fin` there is until the encoder is finished, and when it is
-- finished there is nothing.
pub Reachable-WellFormed : (e : Encoder) → Reachable e → WellFormed e
Reachable-WellFormed _ created = tt
Reachable-WellFormed _ (added body e r) = add-WellFormed body e (Reachable-WellFormed e r)
Reachable-WellFormed _ (ended e r) = fin-WellFormed e (Reachable-WellFormed e r)
Reachable-WellFormed _ (encoded e r) = encode-WellFormed e (Reachable-WellFormed e r)

data_frame-ne-idle : (n : ℕ) → Write.encode_buffer (data_frame n) ≢ err idle
unfolding Write.encode Write.payload_size Write.payload_encode
data_frame-ne-idle n h = elim (encode_cases n) [
  | inl (ns, e, s, a) ↦
      cc (encode_buffer-eq-encode_frame (data_frame n), encode_small 0 (omega arith), e)
  | inr (e, s, l) ↦
      let same : ◌≡◌ {A = Result (List ℕ)} (err idle) (err varint_overflow) =
        sym h
        ∙ encode_buffer-eq-encode_frame (data_frame n)
        ∙ rw (encode_small 0 (omega arith), e) refl in
      cc
]

attempt-ne-idle : (r : Result Buffer) (e : Encoder) → r ≢ err idle → (begun r e).0 ≢ err idle
attempt-ne-idle (ok frame) e n h = cc
attempt-ne-idle (err code) e n h = n h
attempt-ne-idle stuck e n h = cc

-- From the call of `fin` on, `encode` never answers `idle`.
pub fin_called-ne-idle : (e : Encoder) → Reachable e → e.fin_called ≡ true → (encode e).0 ≢ err idle
unfolding encode empty
fin_called-ne-idle e r f = go e.state e.fin_called e.buffers (Reachable-WellFormed e r) f
  where
    go :
        (s : EncoderState) (c : Bool) (bs : Buffers)
        → Queued s c bs
        → c ≡ true
        → (encode (record { state = s; fin_called = c; buffers = bs })).0 ≢ err idle
    go at_frame false bs q p h = cc
    go at_frame true bs q p h = elim (Bool-cases (size bs == 0)) [
      | inl e ↦ absurd (ground arith)
      | inr e ↦ attempt-ne-idle _ _ (data_frame-ne-idle (length (front bs))) (rw e at h)
    ]
    go at_data c bs q p h = cc
    go at_fin c bs q p h = cc
