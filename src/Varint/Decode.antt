-- ===== src/Varint/Decode.antt =====
-- What `decode` reads, well formed or not.
use bnl.Prelude.{
  ℕ, ◌+◌, ◌*◌, ◌/◌, ◌%◌, ◌^◌, ◌≤◌, ◌<◌, ◌≡◌, refl, arith, List, [], ◌∷◌, ◌++◌, length, IsByte, All,
  All-right, length-append, ap, ◌⊎◌, inl, inr, ◌-◌, zero, suc, ◌∙◌,
}
use bnl.Prelude.Bits.{bit_or-eq-add, bit_and-ones}
use bnl.Error.{ok, err, incomplete}
use bnl.Reader.Sound.{Sound, Suffix, Suffix-refl}
use bnl.Varint.{decode, encoded_size}
use native.Mathlib.Nat.{pow-suc, one-le-pow}
use native.Mathlib.Decide.{dec_lt}
use bnl.Varint.Bytes.{value}

pub decode_1 :
    (b : ℕ) (rest : List ℕ) → b < 64 → decode (b ∷ rest) ≡ (ok (value (b ∷ []) % 2 ^ 6), rest)
unfolding decode
decode_1 b rest h = ground (arith, bit_and-ones 6 b)

pub decode_2 :
    (b0 b1 : ℕ) (rest : List ℕ)
    → IsByte b0
    → IsByte b1
    → b0 / 64 ≡ 1
    → decode (b0 ∷ b1 ∷ rest) ≡ (ok (value (b0 ∷ b1 ∷ []) % 2 ^ 14), rest)
unfolding decode
decode_2 b0 b1 rest h0 h1 e = ground (
  arith,
  bit_or-eq-add 8 (b0 * 2 ^ 8 % 2 ^ 16) (b1 * 2 ^ 0 % 2 ^ 16),
  bit_and-ones 14 (b0 * 256 + b1),
)

pub decode_4 :
    (b0 b1 b2 b3 : ℕ) (rest : List ℕ)
    → All IsByte (b0 ∷ b1 ∷ b2 ∷ b3 ∷ [])
    → b0 / 64 ≡ 2
    → decode (b0 ∷ b1 ∷ b2 ∷ b3 ∷ rest) ≡ (ok (value (b0 ∷ b1 ∷ b2 ∷ b3 ∷ []) % 2 ^ 30), rest)
unfolding decode
decode_4 b0 b1 b2 b3 rest h e = ground (
  arith,
  bit_or-eq-add 24 (b0 * 2 ^ 24 % 2 ^ 32) (b1 * 2 ^ 16 % 2 ^ 32),
  bit_or-eq-add 16 (b0 * 2 ^ 24 + b1 * 2 ^ 16) (b2 * 2 ^ 8 % 2 ^ 32),
  bit_or-eq-add 8 (b0 * 2 ^ 24 + b1 * 2 ^ 16 + b2 * 2 ^ 8) (b3 * 2 ^ 0 % 2 ^ 32),
  bit_and-ones 30 (b0 * 2 ^ 24 + b1 * 2 ^ 16 + b2 * 2 ^ 8 + b3),
)

pub decode_8 :
    (b0 b1 b2 b3 b4 b5 b6 b7 : ℕ) (rest : List ℕ)
    → All IsByte (b0 ∷ b1 ∷ b2 ∷ b3 ∷ b4 ∷ b5 ∷ b6 ∷ b7 ∷ [])
    → b0 / 64 ≡ 3
    → decode (b0 ∷ b1 ∷ b2 ∷ b3 ∷ b4 ∷ b5 ∷ b6 ∷ b7 ∷ rest)
      ≡ (ok (value (b0 ∷ b1 ∷ b2 ∷ b3 ∷ b4 ∷ b5 ∷ b6 ∷ b7 ∷ []) % 2 ^ 62), rest)
unfolding decode
decode_8 b0 b1 b2 b3 b4 b5 b6 b7 rest h e =
    let s1 = b0 * 2 ^ 56 + b1 * 2 ^ 48 in
    let s2 = s1 + b2 * 2 ^ 40 in
    let s3 = s2 + b3 * 2 ^ 32 in
    let s4 = s3 + b4 * 2 ^ 24 in
    let s5 = s4 + b5 * 2 ^ 16 in
    let s6 = s5 + b6 * 2 ^ 8 in
    ground (
      arith,
      bit_or-eq-add 56 (b0 * 2 ^ 56 % 2 ^ 64) (b1 * 2 ^ 48 % 2 ^ 64),
      bit_or-eq-add 48 s1 (b2 * 2 ^ 40 % 2 ^ 64),
      bit_or-eq-add 40 s2 (b3 * 2 ^ 32 % 2 ^ 64),
      bit_or-eq-add 32 s3 (b4 * 2 ^ 24 % 2 ^ 64),
      bit_or-eq-add 24 s4 (b5 * 2 ^ 16 % 2 ^ 64),
      bit_or-eq-add 16 s5 (b6 * 2 ^ 8 % 2 ^ 64),
      bit_or-eq-add 8 s6 (b7 * 2 ^ 0 % 2 ^ 64),
      bit_and-ones 62 (s6 + b7),
    )

-- The number of bytes that the first byte announces; an empty sequence lacks one.
abbrev pub announced : List ℕ → ℕ
announced [] = 1
announced (b ∷ s) = 2 ^ (b / 64)

-- The two outcomes of `decode`.
pub data Decoding (s : List ℕ) : Type 0 where
  short : length s < announced s → decode s ≡ (err incomplete, s) → Decoding s
  full :
      (bs rest : List ℕ)
      → s ≡ bs ++ rest
      → length bs ≡ announced s
      → decode s ≡ (ok (value bs % 2 ^ (8 * length bs - 2)), rest)
      → Decoding s

decode_empty : decode [] ≡ (err incomplete, [])
unfolding decode
decode_empty = refl

decode_short :
    (b : ℕ) (s : List ℕ) → suc (length s) < 2 ^ (b / 64) → decode (b ∷ s) ≡ (err incomplete, b ∷ s)
unfolding decode
decode_short b s h = ground arith

-- The rest of a sequence of which `n` more bytes are wanted, split by hand for the four sizes.
wants_1 : (b : ℕ) (s : List ℕ) → All IsByte (b ∷ s) → b / 64 ≡ 0 → Decoding (b ∷ s)
wants_1 b s h e = full (b ∷ []) s refl (rw e) (decode_1 b s (omega arith))

wants_2 : (b : ℕ) (s : List ℕ) → All IsByte (b ∷ s) → b / 64 ≡ 1 → Decoding (b ∷ s)
wants_2 b [] h e = short (rw e (omega arith)) (decode_short b [] (rw e (omega arith)))
wants_2 b (b1 ∷ s) h e = full (b ∷ b1 ∷ []) s refl (rw e) (decode_2 b b1 s h.0 h.1.0 e)

wants_4 : (b : ℕ) (s : List ℕ) → All IsByte (b ∷ s) → b / 64 ≡ 2 → Decoding (b ∷ s)
wants_4 b (b1 ∷ b2 ∷ b3 ∷ s) h e =
    full (b ∷ b1 ∷ b2 ∷ b3 ∷ []) s refl (rw e) (decode_4 b b1 b2 b3 s (assumption) e)
wants_4 b [] h e = short (rw e (omega arith)) (decode_short b _ (rw e (omega arith)))
wants_4 b (b1 ∷ []) h e = short (rw e (omega arith)) (decode_short b _ (rw e (omega arith)))
wants_4 b (b1 ∷ b2 ∷ []) h e = short (rw e (omega arith)) (decode_short b _ (rw e (omega arith)))

wants_8 : (b : ℕ) (s : List ℕ) → All IsByte (b ∷ s) → b / 64 ≡ 3 → Decoding (b ∷ s)
wants_8 b (b1 ∷ b2 ∷ b3 ∷ b4 ∷ b5 ∷ b6 ∷ b7 ∷ s) h e =
    full (b ∷ b1 ∷ b2 ∷ b3 ∷ b4 ∷ b5 ∷ b6 ∷ b7 ∷ []) s refl (rw e)
      (decode_8 b b1 b2 b3 b4 b5 b6 b7 s (assumption) e)
wants_8 b s h e = short (rw e (omega arith)) (decode_short b _ (rw e (omega arith)))

header_cases : (b : ℕ) → IsByte b → (b / 64 ≡ 0) ⊎ ((b / 64 ≡ 1) ⊎ ((b / 64 ≡ 2) ⊎ (b / 64 ≡ 3)))
header_cases b h = omega arith

-- On any bytes `decode` takes the announced number of them, or answers `incomplete` and takes none.
pub decode-Decoding : (s : List ℕ) → All IsByte s → Decoding s
decode-Decoding [] h = short (omega arith) decode_empty
decode-Decoding (b ∷ s) h = elim (header_cases b h.0) [
  | inl e ↦ wants_1 b s h e
  | inr (inl e) ↦ wants_2 b s h e
  | inr (inr (inl e)) ↦ wants_4 b s h e
  | inr (inr (inr e)) ↦ wants_8 b s h e
]

value-lt : (bs : List ℕ) → All IsByte bs → value bs < 256 ^ length bs
value-lt [] h = omega arith
value-lt (b ∷ bs) h = grind (arith, value-lt bs h.1, pow-suc 256 (length bs))

-- What a successful `decode` took off the front.
pub record Takes (s : List ℕ) (v : ℕ) (rest : List ℕ) : Type 0 where
  pub front : List ℕ
  pub split : s ≡ front ++ rest
  pub some_bytes : 0 < length front
  pub fits : v < 2 ^ 62
  pub bytes_left : All IsByte rest
  pub shortest : (n : ℕ) × (encoded_size v ≡ ok n) × (n ≤ length front)

size_fits :
    (n v : ℕ) (k : ℕ)
    → n ≡ 2 ^ k
    → k < 4
    → v < 2 ^ (8 * n - 2)
    → (m : ℕ) × (encoded_size v ≡ ok m) × (m ≤ n)
unfolding encoded_size
size_fits n v zero e h f = (1, ground arith, omega arith)
size_fits n v (suc zero) e h f = elim (dec_lt v 0x40) [
  | yes p ↦ (1, ground arith, omega arith)
  | no p ↦ (2, ground arith, omega arith)
]
size_fits n v (suc (suc zero)) e h f = elim (dec_lt v 0x40) [
  | yes p ↦ (1, ground arith, omega arith)
  | no p ↦ elim (dec_lt v (0x40 * 2 ^ 8)) [
    | yes q ↦ (2, ground arith, omega arith)
    | no q ↦ (4, ground arith, omega arith)
  ]
]
size_fits n v (suc (suc (suc zero))) e h f = elim (dec_lt v 0x40) [
  | yes p ↦ (1, ground arith, omega arith)
  | no p ↦ elim (dec_lt v (0x40 * 2 ^ 8)) [
    | yes q ↦ (2, ground arith, omega arith)
    | no q ↦ elim (dec_lt v (0x40 * 2 ^ 24)) [
      | yes r ↦ (4, ground arith, omega arith)
      | no r ↦ (8, ground arith, omega arith)
    ]
  ]
]
size_fits n v (suc (suc (suc (suc k)))) e h f = absurd (omega arith)

low_fits :
    (bs : List ℕ) (k : ℕ)
    → length bs ≡ 2 ^ k
    → k < 4
    → (value bs % 2 ^ (8 * length bs - 2) < 2 ^ (8 * length bs - 2))
      × (value bs % 2 ^ (8 * length bs - 2) < 2 ^ 62)
low_fits bs zero e h = rw e (omega arith)
low_fits bs (suc zero) e h = rw e (omega arith)
low_fits bs (suc (suc zero)) e h = rw e (omega arith)
low_fits bs (suc (suc (suc zero))) e h = rw e (omega arith)
low_fits bs (suc (suc (suc (suc k)))) e h = absurd (omega arith)

announced_power : (s : List ℕ) → All IsByte s → (k : ℕ) × (announced s ≡ 2 ^ k) × (k < 4)
announced_power [] h = (0, refl, omega arith)
announced_power (b ∷ s) h = (b / 64, refl, omega arith)

-- A number that `decode` returns is below 2^62, stood at the front of the bytes, and took at least
-- as many of them as `encode` would write for it.
pub decode-Takes :
    (s : List ℕ) (v : ℕ) (rest : List ℕ) → All IsByte s → decode s ≡ (ok v, rest) → Takes s v rest
decode-Takes s v rest h e = elim (decode-Decoding s h) [
  | short l d ↦ cc
  | full bs r sp n d ↦ took bs r sp n d
]
  where
    took :
        (bs r : List ℕ)
        → s ≡ bs ++ r
        → length bs ≡ announced s
        → decode s ≡ (ok (value bs % 2 ^ (8 * length bs - 2)), r)
        → Takes s v rest
    took bs r sp n d =
        let (k, p, lt) = announced_power s h in
        let q : length bs ≡ 2 ^ k = n ∙ p in
        let same : r ≡ rest = cc in
        let low : v ≡ value bs % 2 ^ (8 * length bs - 2) = cc in
        record {
          front = bs;
          split = rw (← same) sp;
          some_bytes = omega (arith, q, one-le-pow k 2);
          fits = rw low (low_fits bs k q lt).1;
          bytes_left = rw (← same) (All-right IsByte bs r (rw sp at h));
          shortest = size_fits (length bs) v k q lt (rw low (low_fits bs k q lt).0);
        }

-- `decode` ends on all bytes, and leaves a suffix of them.
pub decode-Sound : Sound decode
decode-Sound = record {
  ends = λ s h. elim (decode-Decoding s h) [
    | short l d ↦ rw d (λ e. cc)
    | full bs r sp n d ↦ rw d (λ e. cc)
  ];
  leaves = λ s h. elim (decode-Decoding s h) [
    | short l d ↦ rw d (Suffix-refl s)
    | full bs r sp n d ↦ rw d (record { front = bs; split = sp })
  ];
}

-- A number and a shorter suffix, or `incomplete` and nothing taken.
pub decode_cases :
    (s : List ℕ)
    → All IsByte s
    → ((v : ℕ) × (rest : List ℕ) × (decode s ≡ (ok v, rest))
        × Suffix s rest
        × All IsByte rest
        × (length rest < length s))
      ⊎ (decode s ≡ (err incomplete, s))
decode_cases s h = elim (decode-Decoding s h) [
  | short l d ↦ inr d
  | full bs r sp n d ↦
      let t = decode-Takes s _ r h d in
      inl (
        value bs % 2 ^ (8 * length bs - 2),
        r,
        d,
        record { front = bs; split = sp },
        t.bytes_left,
        omega (arith, ap length t.split, length-append t.front r, t.some_bytes),
      )
]
