-- ===== src/Frame/Parts.antt =====
-- The parts of `frame::decode`, on any bytes.
use bnl.Prelude.{
  ℕ, zero, suc, ◌-◌, ◌<◌, ◌≡◌, ◌≢◌, refl, sym, arith, List, [], ◌∷◌, length, take, take-append-drop,
  inl, inr, ◌⊎◌, ltb, ◌==◌, Option, some, none, IsByte, All,
}
use bnl.Error.{ok, err, stuck, incomplete}
use bnl.Reader.{Reader, ◌>>=◌}
use bnl.Reader.Sound.{
  Sound, Suffix, Suffix-refl, Suffix-trans, Suffix-length, Sound-bind, sound_rules, Run, Run-elim,
  Run-if, Run-trans, Run-Sound, Sound-Run,
}
use bnl.Settings.{Settings, default_settings}
use bnl.Frame.{Frame, FrameType, to_type}
use bnl.Frame.Read.{
  uint8_decode, settings_loop, settings_decode, priority_decode, push_promise_decode, skip_unknown,
  payload_decode, check_size, decode_single,
}
use bnl.Varint
use bnl.Varint.Decode.{decode-Sound as varint-Sound, decode_cases}

uint8_decode-Sound : Sound uint8_decode
unfolding uint8_decode
uint8_decode-Sound = record { ends = ends; leaves = leaves }
  where
    ends : (s : List ℕ) → All IsByte s → (uint8_decode s).0 ≢ stuck
    ends [] h e = cc
    ends (b ∷ s) h e = cc

    leaves : (s : List ℕ) → All IsByte s → Suffix s (uint8_decode s).1
    leaves [] h = Suffix-refl []
    leaves (b ∷ s) h = record { front = b ∷ []; split = refl }

ruleset reader_rules = (sound_rules, varint-Sound, uint8_decode-Sound)

priority_decode-Sound : Sound priority_decode
unfolding priority_decode
priority_decode-Sound = search reader_rules depth 10

-- Two numbers are read, and the rest of the work has a shorter sequence.
pair-Run {ℓ} :
    {A : Type ℓ} (k : ℕ → ℕ → Reader A) (s : List ℕ)
    → All IsByte s
    → ((id value : ℕ) (rest : List ℕ)
        → All IsByte rest
        → length rest < length s
        → Run rest (k id value rest))
    → Run s ((Varint.decode >>= λ id. Varint.decode >>= λ value. k id value) s)
pair-Run k s h rec = elim (decode_cases s h) [
  | inr e ↦ rw e ((λ p. cc), Suffix-refl s)
  | inl (id, r, e, a, hr, lt) ↦ elim (decode_cases r hr) [
    | inr d ↦ rw (e, d) ((λ p. cc), a)
    | inl (value, rest, d, b, ht, lt') ↦
        rw (e, d) (Run-trans s rest _ (Suffix-trans a b) (rec id value rest ht (omega arith)))
  ]
]

-- Each round takes a byte at least, so fuel beyond the length is never used up.
settings_loop-ends :
    (fuel n payload : ℕ) (acc : Settings) (s : List ℕ)
    → All IsByte s
    → length s < fuel
    → Run s (settings_loop fuel n payload acc s)
unfolding settings_loop
settings_loop-ends zero n payload acc s h f = absurd (omega arith)
settings_loop-ends (suc fuel) n payload acc s h f =
    Run-elim s (ok acc, s) _ (ltb n payload) (λ e. ((λ p. cc), Suffix-refl s))
      (λ e.
        pair-Run _ s h
          (λ id value rest hr lt. settings_loop-ends fuel _ payload _ rest hr (omega arith)))

pub settings_decode-Sound : (payload : ℕ) → Sound (settings_decode payload)
unfolding settings_decode
settings_decode-Sound payload =
    Run-Sound (settings_decode payload)
      (λ s h. settings_loop-ends (suc (length s)) 0 payload default_settings s h (omega arith))

push_promise_decode-Sound : (payload : ℕ) → Sound (push_promise_decode payload)
unfolding push_promise_decode
push_promise_decode-Sound payload = Run-Sound (push_promise_decode payload) run
  where
    run : (s : List ℕ) → All IsByte s → Run s (push_promise_decode payload s)
    run s h = elim (decode_cases s h) [
      | inr e ↦ rw (e, push_promise_decode) ((λ p. cc), Suffix-refl s)
      | inl (id, r, e, a, hr, lt) ↦
          rw (e, push_promise_decode)
            (Run-if s _ _ (ltb payload (length s - length r)) ((λ p. cc), a) ((λ p. cc), a))
    ]

skip_unknown-Sound : (payload : ℕ) → Sound (skip_unknown payload)
unfolding skip_unknown
skip_unknown-Sound payload = Run-Sound (skip_unknown payload) (λ s h.
    Run-if s _ _ (ltb (length s) payload) ((λ p. cc), Suffix-refl s)
      ((λ p. cc), record { front = take payload s; split = sym (take-append-drop payload s) }))

payload_decode-Sound : (t : Option FrameType) (payload : ℕ) → Sound (payload_decode t payload)
unfolding payload_decode
payload_decode-Sound none payload = skip_unknown-Sound payload
payload_decode-Sound (some FrameType.settings) payload =
    search (reader_rules, settings_decode-Sound)
payload_decode-Sound (some FrameType.priority) payload =
    search (reader_rules, priority_decode-Sound)
payload_decode-Sound (some FrameType.push_promise) payload = push_promise_decode-Sound payload
payload_decode-Sound (some _) payload = search reader_rules

check_size-Sound : (before : List ℕ) (p : Frame × ℕ) → Sound (check_size before p)
unfolding check_size
check_size-Sound before p = Run-Sound (check_size before p) (λ s h.
    Run-if s _ _ (length before - length s == p.1) ((λ e. cc), Suffix-refl s)
      ((λ e. cc), Suffix-refl s))

-- What `decode_single` does after the type of the frame.
payload_of : ℕ → Reader Frame
payload_of type = do
  payload ← Varint.decode
  λ before. (payload_decode (to_type type) payload >>= check_size before) before

payload_of-Sound : (type : ℕ) → Sound (payload_of type)
unfolding payload_of
payload_of-Sound type = Sound-bind Varint.decode _ varint-Sound (λ payload. Run-Sound _ (λ s h.
    Sound-Run _
      (Sound-bind (payload_decode (to_type type) payload) (check_size s)
        (payload_decode-Sound (to_type type) payload) (check_size-Sound s))
      s h))

pub decode_single-Sound : Sound decode_single
unfolding decode_single payload_of
decode_single-Sound = Sound-bind Varint.decode payload_of varint-Sound payload_of-Sound

-- Unless the type itself is cut off, a frame takes at least a byte.
pub decode_single_shrinks :
    (s : List ℕ)
    → All IsByte s
    → (decode_single s ≡ (err incomplete, s)) ⊎ (length (decode_single s).1 < length s)
unfolding decode_single payload_of
decode_single_shrinks s h = elim (decode_cases s h) [
  | inr e ↦ inl (rw (e, decode_single) refl)
  | inl (type, r, e, a, hr, lt) ↦
      inr
        (rw (e, decode_single) (omega (arith, Suffix-length ((payload_of-Sound type).leaves r hr))))
]
