-- ===== src/Frame/Safety.antt =====
-- `frame::decode` on any bytes, with unknown frames in front too.
use bnl.Prelude.{
  ℕ, zero, suc, ◌<◌, ◌≡◌, ◌≢◌, refl, arith, false, List, length, inl, inr, ap, ◌⊎◌, IsByte, All,
}
use bnl.Error.{Error, Result, ok, err, stuck, incomplete, delegate, is_delegate}
use bnl.Reader.Sound.{Suffix, Suffix-All}
use bnl.Frame.{Frame}
use bnl.Frame.Read.{decode_single, decode_loop, decode}
use bnl.Frame.Parts.{decode_single-Sound, decode_single_shrinks}

-- The three outcomes of `decode_single`: a frame, an unknown frame that is skipped, an error.
pub data Outcome (s : List ℕ) : Type 0 where
  frame :
      (f : Frame) (r : List ℕ)
      → decode_single s ≡ (ok f, r)
      → Suffix s r
      → length r < length s
      → Outcome s
  skipped :
      (r : List ℕ)
      → decode_single s ≡ (err delegate, r)
      → Suffix s r
      → length r < length s
      → Outcome s
  failed :
      (e : Error) (r : List ℕ) → decode_single s ≡ (err e, r) → is_delegate e ≡ false → Outcome s

pub decode_single-Outcome : (s : List ℕ) → All IsByte s → Outcome s
decode_single-Outcome s h =
    outcome (decode_single s).0 refl (decode_single-Sound.ends s h) (decode_single-Sound.leaves s h)
      (decode_single_shrinks s h)
  where
    outcome :
        (x : Result Frame)
        → (decode_single s).0 ≡ x
        → (decode_single s).0 ≢ stuck
        → Suffix s (decode_single s).1
        → (decode_single s ≡ (err incomplete, s)) ⊎ (length (decode_single s).1 < length s)
        → Outcome s
    outcome (ok f) e n a (inr lt) = frame f (decode_single s).1 (ground arith) a lt
    outcome (ok f) e n a (inl d) = cc
    outcome (err delegate) e n a (inr lt) = skipped (decode_single s).1 (ground arith) a lt
    outcome (err delegate) e n a (inl d) = cc
    outcome (err x) e n a c = failed x (decode_single s).1 (ground arith) refl
    outcome stuck e n a c = absurd (n e)

module _ (fuel : ℕ) (s r : List ℕ) where
  pub decode_loop-frame :
      (f : Frame) → decode_single s ≡ (ok f, r) → decode_loop (suc fuel) s ≡ (ok f, r)
  unfolding decode_loop
  decode_loop-frame f e = ground arith

  pub decode_loop-skipped :
      decode_single s ≡ (err delegate, r) → decode_loop (suc fuel) s ≡ decode_loop fuel r
  unfolding decode_loop
  decode_loop-skipped e = ground arith

  pub decode_loop-failed :
      (e : Error)
      → decode_single s ≡ (err e, r)
      → is_delegate e ≡ false
      → decode_loop (suc fuel) s ≡ (err e, s)
  unfolding decode_loop
  decode_loop-failed e d n = ground arith

-- Beyond the length of the input the fuel does not matter.
decode_loop_fuel :
    (n m : ℕ) (s : List ℕ)
    → All IsByte s
    → length s < n
    → length s < m
    → decode_loop n s ≡ decode_loop m s
decode_loop_fuel zero m s h p q = absurd (omega arith)
decode_loop_fuel (suc n) zero s h p q = absurd (omega arith)
decode_loop_fuel (suc n) (suc m) s h p q = elim (decode_single-Outcome s h) [
  | frame x r e a lt ↦ rw (decode_loop-frame n s r x e, decode_loop-frame m s r x e)
  | skipped r e a lt ↦
      rw (decode_loop-skipped n s r e, decode_loop-skipped m s r e)
        (decode_loop_fuel n m r (Suffix-All a h) (omega arith) (omega arith))
  | failed x r e k ↦ rw (decode_loop-failed n s r x e k, decode_loop-failed m s r x e k)
]

-- A frame of unknown type, whole in the input, is invisible: `decode` answers as if the input
-- started behind it.
pub decode-skipped :
    (s r : List ℕ) → All IsByte s → decode_single s ≡ (err delegate, r) → decode s ≡ decode r
unfolding decode
decode-skipped s r h e = elim (decode_single-Outcome s h) [
  | frame x t d a lt ↦ cc
  | failed x t d k ↦ let same : delegate ≡ x = cc in cc (ap is_delegate same)
  | skipped t d a lt ↦
      let same : t ≡ r = cc in
      rw (decode_loop-skipped (length s) s r e) (
        decode_loop_fuel (length s) (suc (length r)) r (Suffix-All (rw same at a) h) (rw same at lt)
          (omega arith))
]
