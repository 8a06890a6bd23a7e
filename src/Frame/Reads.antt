-- ===== src/Frame/Reads.antt =====
-- How the readers of payloads in `decode_single` fail: an error of theirs never says that a frame
-- is skipped.
use bnl.Prelude.{
  ℕ, zero, suc, ◌≡◌, refl, Bool, true, false, inl, inr, List, length, ltb, IsByte, All,
}
use bnl.Error.{Result, ok, err, stuck, is_delegate}
use bnl.Reader.{Reader, ◌>>=◌}
use bnl.Reader.Sound.{Suffix}
use bnl.Settings.{Settings, default_settings}
use bnl.Frame.Read.{settings_loop, settings_decode}
use bnl.Frame.Parts.{settings_decode-Sound}
use bnl.Varint
use bnl.Varint.Decode.{decode_cases}

-- A reader of something that is put into a frame.
abbrev pub Reads {ℓ} : {A : Type ℓ} → List ℕ → Result A × List ℕ → Type 0
Reads s (ok a, r) = Suffix s r
Reads s (err e, r) = is_delegate e ≡ false
Reads s (stuck, r) = Unit {0}

pub varint-Reads : (s : List ℕ) → All IsByte s → Reads s (Varint.decode s)
varint-Reads s h = elim (decode_cases s h) [ inl (v, r, e, a, hr, lt) ↦ rw e a | inr e ↦ rw e refl ]

-- The settings fail only where a number is cut off.
abbrev Fails {ℓ} : {A : Type ℓ} → Result A × List ℕ → Type 0
Fails (ok a, r) = Unit {0}
Fails (err e, r) = is_delegate e ≡ false
Fails (stuck, r) = Unit {0}

module _ {ℓ} {A : Type ℓ} where
  Fails-elim :
      (x y : Result A × List ℕ) (b : Bool)
      → (b ≡ false → Fails x)
      → (b ≡ true → Fails y)
      → Fails {A = A} (elim b [ false ↦ x | true ↦ y ])
  Fails-elim x y false p q = p refl
  Fails-elim x y true p q = q refl

  Fails-pair :
      (k : ℕ → ℕ → Reader A) (s : List ℕ)
      → All IsByte s
      → ((id value : ℕ) (rest : List ℕ) → All IsByte rest → Fails (k id value rest))
      → Fails ((Varint.decode >>= λ id. Varint.decode >>= λ value. k id value) s)
  Fails-pair k s h rec = elim (decode_cases s h) [
    | inr e ↦ rw e refl
    | inl (id, r, e, a, hr, lt) ↦ elim (decode_cases r hr) [
      | inr d ↦ rw (e, d) refl
      | inl (value, rest, d, b, ht, lt') ↦ rw (e, d) (rec id value rest ht)
    ]
  ]

settings_loop-Fails :
    (fuel n payload : ℕ) (acc : Settings) (s : List ℕ)
    → All IsByte s
    → Fails (settings_loop fuel n payload acc s)
unfolding settings_loop
settings_loop-Fails zero n payload acc s h = tt
settings_loop-Fails (suc fuel) n payload acc s h =
    Fails-elim (ok acc, s) _ (ltb n payload) (λ e. tt)
      (λ e. Fails-pair _ s h (λ id value rest hr. settings_loop-Fails fuel _ payload _ rest hr))

pub settings-Reads : (n : ℕ) (s : List ℕ) → All IsByte s → Reads s (settings_decode n s)
unfolding settings_decode
settings-Reads n s h =
    both (settings_loop (suc (length s)) 0 n default_settings s)
      (settings_loop-Fails (suc (length s)) 0 n default_settings s h)
      ((settings_decode-Sound n).leaves s h)
  where
    both : (p : Result Settings × List ℕ) → Fails p → Suffix s p.1 → Reads s p
    both (ok a, r) f w = w
    both (err e, r) f w = f
    both (stuck, r) f w = tt
