-- ===== src/Frame/SettingsLoop.antt =====
-- The loop that reads the settings, on what the loop that writes them wrote.
use bnl.Prelude.{
  ℕ, zero, suc, ◌+◌, ◌<◌, ◌≡◌, arith, true, false, List, [], ◌∷◌, ◌++◌, length, length-append,
  Bool-cases, inl, inr, ap, ◌∙◌, append_assoc,
}
use bnl.Error.{ok, tried}
use bnl.Settings.{Settings, array, default_settings}
use bnl.Frame.Write.{settings_encode, is_skipped}
use bnl.Frame.Read.{apply_setting, settings_loop, settings_decode}
use bnl.Varint
use bnl.Varint.Encode.{encode-Encoded}
use bnl.Varint.RoundTrip.{decode-encode}

-- The settings after the pairs of a list were read into them.
abbrev pub apply_all : List (ℕ × ℕ) → Settings → Settings
apply_all [] s = s
apply_all ((id, value) ∷ ps) s = elim (is_skipped id value) [
  | true ↦ apply_all ps s
  | false ↦ apply_all ps (apply_setting id value s)
]

settings_loop_done :
    (fuel n : ℕ) (s : Settings) (rest : List ℕ)
    → 0 < fuel
    → settings_loop fuel n n s rest ≡ (ok s, rest)
unfolding settings_loop
settings_loop_done zero n s rest h = absurd (omega arith)
settings_loop_done (suc fuel) n s rest h = ground arith

settings_loop_step :
    (fuel n payload id value : ℕ) (s : Settings) (is vs more : List ℕ)
    → n < payload
    → Varint.encode id ≡ ok is
    → Varint.encode value ≡ ok vs
    → settings_loop (suc fuel) n payload s (is ++ (vs ++ more))
      ≡ settings_loop fuel (n + (length is + length vs)) payload (apply_setting id value s) more
unfolding settings_loop
settings_loop_step fuel n payload id value s is vs more h i v = ground (
  arith,
  decode-encode id is (vs ++ more) i,
  decode-encode value vs more v,
  length-append is (vs ++ more),
  length-append vs more,
)

-- The parts of an encoded pair that is not skipped.
record PairBytes (id value : ℕ) (ps : List (ℕ × ℕ)) (bs : List ℕ) : Type 0 where
  is : List ℕ
  vs : List ℕ
  more : List ℕ
  id_bytes : Varint.encode id ≡ ok is
  value_bytes : Varint.encode value ≡ ok vs
  more_bytes : settings_encode ps ≡ ok more
  split : is ++ (vs ++ more) ≡ bs

pair_bytes :
    (id value : ℕ) (ps : List (ℕ × ℕ)) (bs : List ℕ)
    → is_skipped id value ≡ false
    → settings_encode ((id, value) ∷ ps) ≡ ok bs
    → PairBytes id value ps bs
unfolding settings_encode
pair_bytes id value ps bs t e =
    let (is, i, e1) = tried (Varint.encode id) _ (rw t at e) in
    let (vs, v, e2) = tried (Varint.encode value) _ e1 in
    let (more, m, e3) = tried (settings_encode ps) _ e2 in
    record {
      is = is;
      vs = vs;
      more = more;
      id_bytes = i;
      value_bytes = v;
      more_bytes = m;
      split = cc;
    }

settings_loop-encode :
    (ps : List (ℕ × ℕ)) (fuel n payload : ℕ) (s : Settings) (bs rest : List ℕ)
    → settings_encode ps ≡ ok bs
    → n + length bs ≡ payload
    → length bs < fuel
    → settings_loop fuel n payload s (bs ++ rest) ≡ (ok (apply_all ps s), rest)
unfolding settings_encode
settings_loop-encode [] fuel n payload s bs rest e p f =
    let none_left : bs ≡ [] = cc in
    let same : n ≡ payload = omega (arith, ap length none_left) in
    rw (none_left, same) (settings_loop_done fuel payload s rest (omega arith))
settings_loop-encode ((id, value) ∷ ps) zero n payload s bs rest e p f = absurd (omega arith)
settings_loop-encode ((id, value) ∷ ps) (suc fuel) n payload s bs rest e p f =
    elim (Bool-cases (is_skipped id value)) [
      | inl t ↦
          rw (t, apply_all) (settings_loop-encode ps (suc fuel) n payload s bs rest (rw t at e) p f)
      | inr t ↦
          rw (t, apply_all) (reads (pair_bytes id value ps bs t e) (settings_loop-encode ps fuel))
    ]
  where
    reads :
        PairBytes id value ps bs
        → ((m total : ℕ) (acc : Settings) (cs tail : List ℕ)
            → settings_encode ps ≡ ok cs
            → m + length cs ≡ total
            → length cs < fuel
            → settings_loop fuel m total acc (cs ++ tail) ≡ (ok (apply_all ps acc), tail))
        → settings_loop (suc fuel) n payload s (bs ++ rest)
          ≡ (ok (apply_all ps (apply_setting id value s)), rest)
    reads b ih =
        let len : length bs ≡ length b.is + (length b.vs + length b.more) = omega (
          arith,
          ap length b.split,
          length-append b.is (b.vs ++ b.more),
          length-append b.vs b.more,
        ) in
        let wide = (encode-Encoded id b.is b.id_bytes).at_least_one in
        let start : bs ++ rest ≡ b.is ++ (b.vs ++ (b.more ++ rest)) =
          rw (← b.split)
            (append_assoc b.is _ rest ∙ ap (◌++◌ b.is) (append_assoc b.vs b.more rest)) in
        rw start (
          settings_loop_step fuel n payload id value s b.is b.vs _ (omega arith) b.id_bytes
            b.value_bytes
          ∙ ih _ payload _ b.more rest b.more_bytes (omega arith) (omega arith))

apply_all-array : (s : Settings) → apply_all (array s) default_settings ≡ s
unfolding apply_setting is_skipped
apply_all-array s = ground arith

pub settings_decode-encode :
    (s : Settings) (payload : ℕ) (bs rest : List ℕ)
    → settings_encode (array s) ≡ ok bs
    → length bs ≡ payload
    → settings_decode payload (bs ++ rest) ≡ (ok s, rest)
unfolding settings_decode
settings_decode-encode s payload bs rest e p =
    settings_loop-encode (array s) (suc (length (bs ++ rest))) 0 payload default_settings bs rest e
      (omega arith) (omega (arith, length-append bs rest))
    ∙ ap (λ (t : Settings). (ok t, rest)) (apply_all-array s)
