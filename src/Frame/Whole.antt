-- ===== src/Frame/Whole.antt =====
-- What `frame::decode` takes off any bytes: whole frames.
use bnl.Prelude.{
  ℕ, zero, suc, ◌≤◌, ◌<◌, ◌≡◌, ap, arith, true, false, inl, inr, List, length, drop, none, some,
  IsByte, All,
}
use mathlib.Core.Path.{subst}
use bnl.Error.{Result, ok, err, stuck, delegate, is_delegate}
use bnl.Reader.Sound.{Suffix-All}
use bnl.Frame.{Frame, frame_type, to_type}
use bnl.Frame.Read.{decode_single, decode_loop, decode}
use bnl.Frame.Safety.{
  frame, skipped, failed, decode_single-Outcome, decode_loop-frame, decode_loop-skipped,
  decode_loop-failed,
}
use bnl.Varint
use bnl.Varint.Decode.{decode_cases}
use bnl.Frame.Payload.{Payload, Part, payload_decode-Part}

-- The bytes from `encoded` to `rest` are those of the frame.
pub record Whole (f : Frame) (encoded rest : List ℕ) : Type 0 where
  pub type : ℕ
  pub n : ℕ
  pub behind_type : List ℕ
  pub payload : List ℕ
  pub has_type : Varint.decode encoded ≡ (ok type, behind_type)
  pub has_size : Varint.decode behind_type ≡ (ok n, payload)
  pub of_type : to_type type ≡ some (frame_type f)
  pub takes : Payload f n payload rest

-- The bytes from `encoded` to `rest` are those of a frame of unknown type, which is all there.
pub record Unknown (encoded rest : List ℕ) : Type 0 where
  pub type : ℕ
  pub n : ℕ
  pub behind_type : List ℕ
  pub payload : List ℕ
  pub has_type : Varint.decode encoded ≡ (ok type, behind_type)
  pub has_size : Varint.decode behind_type ≡ (ok n, payload)
  pub of_no_type : to_type type ≡ none
  pub enough : n ≤ length payload
  pub takes : rest ≡ drop n payload

pub data Skips : List ℕ → List ℕ → Type 0 where
  nothing : (encoded : List ℕ) → Skips encoded encoded
  more : (encoded next rest : List ℕ) → Unknown encoded next → Skips next rest → Skips encoded rest

-- The answer to any bytes: whole frames of unknown type are skipped, and behind them a whole frame
-- is taken, or an error leaves the bytes.
abbrev pub Answers : List ℕ → Result Frame × List ℕ → Type 0
Answers encoded (ok f, rest) = (next : List ℕ) × Skips encoded next × Whole f next rest
Answers encoded (err error, rest) =
    Skips encoded rest × ((decode_single rest).0 ≡ err error) × (is_delegate error ≡ false)
Answers encoded (stuck, rest) = false ≡ true

-- What `decode_single` takes.
abbrev Single : List ℕ → Result Frame × List ℕ → Type 0
Single s (ok f, r) = Whole f s r
Single s (err delegate, r) = Unknown s r
Single s (err error, r) = Unit {0}
Single s (stuck, r) = Unit {0}

decode_single-Single : (s : List ℕ) → All IsByte s → Single s (decode_single s)
unfolding decode_single
decode_single-Single s h = elim (decode_cases s h) [
  | inr e ↦ rw (e, decode_single) tt
  | inl (type, r, e, a, hr, lt) ↦ elim (decode_cases r hr) [
    | inr d ↦ rw (e, d, decode_single) tt
    | inl (n, payload, d, b, ht, lt') ↦
        rw (e, d, decode_single)
          (with_sizes type n r payload e d _ (payload_decode-Part (to_type type) n payload ht))
  ]
]
  where
    with_sizes :
        (type n : ℕ) (r payload : List ℕ)
        → Varint.decode s ≡ (ok type, r)
        → Varint.decode r ≡ (ok n, payload)
        → (p : Result Frame × List ℕ) → Part (to_type type) n payload p
        → Single s p
    with_sizes type n r payload e d (ok f, rest) w = record {
      type = type;
      n = n;
      behind_type = r;
      payload = payload;
      has_type = e;
      has_size = d;
      of_type = w.0;
      takes = w.1;
    }
    with_sizes type n r payload e d (err delegate, rest) w = record {
      type = type;
      n = n;
      behind_type = r;
      payload = payload;
      has_type = e;
      has_size = d;
      of_no_type = w.0;
      enough = w.1;
      takes = w.2;
    }
    with_sizes type n r payload e d (err x, rest) w = tt
    with_sizes type n r payload e d (stuck, rest) w = tt

Answers-more : (s r : List ℕ) (p : Result Frame × List ℕ) → Unknown s r → Answers r p → Answers s p
Answers-more s r (ok f, rest) u w = (w.0, more s r w.0 u w.1, w.2)
Answers-more s r (err e, rest) u w = (more s r rest u w.0, w.1, w.2)
Answers-more s r (stuck, rest) u w = w

decode_loop-Answers :
    (fuel : ℕ) (s : List ℕ) → All IsByte s → length s < fuel → Answers s (decode_loop fuel s)
decode_loop-Answers zero s h f = absurd (omega arith)
decode_loop-Answers (suc fuel) s h f = elim (decode_single-Outcome s h) [
  | frame x r e a lt ↦
      rw (decode_loop-frame fuel s r x e)
        (s, nothing s, subst (Single s) e (decode_single-Single s h))
  | skipped r e a lt ↦ rw (decode_loop-skipped fuel s r e) (
      Answers-more s r _ (subst (Single s) e (decode_single-Single s h))
        (decode_loop-Answers fuel r (Suffix-All a h) (omega arith)))
  | failed x r e n ↦ rw (decode_loop-failed fuel s r x e n) (nothing s, ap (λ p. p.0) e, n)
]

-- On any bytes `frame::decode` skips whole frames of unknown type and then answers. The answer is a
-- frame of the type that was announced, or the error of the frame from which on the bytes are left.
-- Of DATA and HEADERS the type and the size are taken and nothing behind them. Of PUSH_PROMISE the
-- identifier is taken too, and its bytes are subtracted from the size that was announced. Of each
-- other frame exactly as many bytes are taken as were announced, and they are all there.
pub decode-Answers : (encoded : List ℕ) → All IsByte encoded → Answers encoded (decode encoded)
unfolding decode
decode-Answers encoded h = decode_loop-Answers (suc (length encoded)) encoded h (omega arith)
