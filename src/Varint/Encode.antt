-- ===== src/Varint/Encode.antt =====
-- What `encode` writes.
use bnl.Prelude.{
  ℕ, ◌+◌, ◌*◌, ◌%◌, ◌^◌, ◌≤◌, ◌<◌, ◌≡◌, refl, arith, List, length, ◌⊎◌, inl, inr, IsByte, All, ap,
  append-nil, drop, replicate, [], ◌↔◌, zero, suc, ◌∷◌,
}
use bnl.Prelude.Bits.{bit_or-zero, bit_or_0x40, bit_or_0x80, bit_or_0xc0}
use bnl.Error.{ok, err, varint_overflow}
use bnl.Varint.{encoded_size, encode, encode_buffer, byte_at, written_to}
use native.Mathlib.Decide.{dec_lt}
use mathlib.Core.Path.{subst, ◌∙◌}
use bnl.Varint.Bytes.{big_endian, tag, big_endian-IsByte, length-big_endian}

pub encode_1 : (v : ℕ) → v < 0x40 → encode v ≡ ok (big_endian 1 (tag 1 + v))
unfolding encode
encode_1 v h = ground (arith, bit_or-zero (byte_at (v % 2 ^ 8) 0))

pub encode_2 : (v : ℕ) → 0x40 ≤ v → v < 0x40 * 2 ^ 8 → encode v ≡ ok (big_endian 2 (tag 2 + v))
unfolding encode
encode_2 v l h = ground (arith, bit_or_0x40 (byte_at (v % 2 ^ 16) 8))

pub encode_4 :
    (v : ℕ) → 0x40 * 2 ^ 8 ≤ v → v < 0x40 * 2 ^ 24 → encode v ≡ ok (big_endian 4 (tag 4 + v))
unfolding encode
encode_4 v l h = ground (arith, bit_or_0x80 (byte_at (v % 2 ^ 32) 24))

pub encode_8 :
    (v : ℕ) → 0x40 * 2 ^ 24 ≤ v → v < 0x40 * 2 ^ 56 → encode v ≡ ok (big_endian 8 (tag 8 + v))
unfolding encode
encode_8 v l h = ground (arith, bit_or_0xc0 (byte_at v 56))

-- The four ranges of encodable numbers with their sizes, and the rest.
pub data Sized (v n : ℕ) : Type 0 where
  one : n ≡ 1 → v < 0x40 → Sized v n
  two : n ≡ 2 → 0x40 ≤ v → v < 0x40 * 2 ^ 8 → Sized v n
  four : n ≡ 4 → 0x40 * 2 ^ 8 ≤ v → v < 0x40 * 2 ^ 24 → Sized v n
  eight : n ≡ 8 → 0x40 * 2 ^ 24 ≤ v → v < 0x40 * 2 ^ 56 → Sized v n

pub encoded_size_cases :
    (v : ℕ)
    → ((n : ℕ) × (encoded_size v ≡ ok n) × Sized v n)
      ⊎ ((encoded_size v ≡ err varint_overflow) × (0x40 * 2 ^ 56 ≤ v))
unfolding encoded_size
encoded_size_cases v = elim (dec_lt v 0x40) [
  | yes p ↦ inl (1, ground arith, one refl p)
  | no p ↦ elim (dec_lt v (0x40 * 2 ^ 8)) [
    | yes q ↦ inl (2, ground arith, two refl (omega arith) q)
    | no q ↦ elim (dec_lt v (0x40 * 2 ^ 24)) [
      | yes r ↦ inl (4, ground arith, four refl (omega arith) r)
      | no r ↦ elim (dec_lt v (0x40 * 2 ^ 56)) [
        | yes t ↦ inl (8, ground arith, eight refl (omega arith) t)
        | no t ↦ inr (ground arith, omega arith)
      ]
    ]
  ]
]

pub encoded_size-Sized : (v n : ℕ) → encoded_size v ≡ ok n → Sized v n
encoded_size-Sized v n e = elim (encoded_size_cases v) [
  | inl (m, d, s) ↦ subst (Sized v) (cc) s
  | inr (d, h) ↦ cc
]

encode-Sized : (v n : ℕ) → Sized v n → encode v ≡ ok (big_endian n (tag n + v))
encode-Sized v n (one e h) = rw e (encode_1 v h)
encode-Sized v n (two e l h) = rw e (encode_2 v l h)
encode-Sized v n (four e l h) = rw e (encode_4 v l h)
encode-Sized v n (eight e l h) = rw e (encode_8 v l h)

-- `encode` writes `encoded_size` bytes: the number in big-endian order, with the length bits on
-- top.
pub encode-big_endian : (v n : ℕ) → encoded_size v ≡ ok n → encode v ≡ ok (big_endian n (tag n + v))
encode-big_endian v n e = encode-Sized v n (encoded_size-Sized v n e)

pub encode-overflow :
    (v : ℕ) → encoded_size v ≡ err varint_overflow → encode v ≡ err varint_overflow
unfolding encode
encode-overflow v e = rw e

-- What every later use needs: the size, the bytes and their number agree.
pub encode_cases :
    (v : ℕ)
    → ((bs : List ℕ) × (encode v ≡ ok bs) × (encoded_size v ≡ ok (length bs)) × All IsByte bs)
      ⊎ ((encode v ≡ err varint_overflow)
          × (encoded_size v ≡ err varint_overflow)
          × (0x40 * 2 ^ 56 ≤ v))
encode_cases v = elim (encoded_size_cases v) [
  | inl (n, e, s) ↦ inl (
    big_endian n (tag n + v),
    encode-big_endian v n e,
    rw length-big_endian e,
    big_endian-IsByte n (tag n + v),
  )
  | inr (e, h) ↦ inr (encode-overflow v e, e, h)
]

drop-replicate : (n : ℕ) → drop {A = ℕ} n (replicate n 0) ≡ []
drop-replicate zero = refl
drop-replicate (suc n) = drop-replicate n

pub written_to-length : (bs : List ℕ) → written_to (length bs) bs ≡ bs
written_to-length bs = rw (drop-replicate (length bs)) (append-nil bs)

-- The buffer that the other overload allocates is filled exactly.
pub encode_buffer-eq-encode : (v : ℕ) → encode_buffer v ≡ encode v
unfolding encode_buffer
encode_buffer-eq-encode v = elim (encode_cases v) [
  | inl (bs, e, s, b) ↦ rw (e, s) (ap ok (written_to-length bs))
  | inr (e, s, h) ↦ rw (e, s)
]

-- The numbers below 2^62 are the encodable ones.
pub encode-fails_iff : (v : ℕ) → (encode v ≡ err varint_overflow) ↔ (2 ^ 62 ≤ v)
encode-fails_iff v = elim (encode_cases v) [
  | inl (bs, e, s, b) ↦ (λ d. cc, λ h. absurd (too_large (encoded_size-Sized v _ s) h))
  | inr (e, s, h) ↦ (λ d. h, λ d. e)
]
  where
    too_large : {n : ℕ} → Sized v n → 2 ^ 62 ≤ v → ⊥
    too_large (one e h) l = omega arith
    too_large (two e m h) l = omega arith
    too_large (four e m h) l = omega arith
    too_large (eight e m h) l = omega arith

-- What a client needs of a successful `encode`.
pub record Encoded (v : ℕ) (bs : List ℕ) : Type 0 where
  pub size : encoded_size v ≡ ok (length bs)
  pub bytes : All IsByte bs
  pub at_least_one : 0 < length bs
  pub at_most_eight : length bs ≤ 8
  pub below : v < 2 ^ 62

Sized-bounds : (v n : ℕ) → Sized v n → (0 < n) × (n ≤ 8) × (v < 2 ^ 62)
Sized-bounds v n (one e h) = omega arith
Sized-bounds v n (two e l h) = omega arith
Sized-bounds v n (four e l h) = omega arith
Sized-bounds v n (eight e l h) = omega arith

pub encode-Encoded : (v : ℕ) (bs : List ℕ) → encode v ≡ ok bs → Encoded v bs
encode-Encoded v bs e = elim (encode_cases v) [
  | inl (cs, d, s, b) ↦
      let same : cs ≡ bs = cc in
      let (lo, hi, fits) = Sized-bounds v (length cs) (encoded_size-Sized v (length cs) s) in
      subst (Encoded v) same
        (record { size = s; bytes = b; at_least_one = lo; at_most_eight = hi; below = fits })
  | inr (d, s, h) ↦ cc
]

-- A number below 64 is its own encoding.
pub encode_small : (v : ℕ) → v < 0x40 → encode v ≡ ok (v ∷ [])
encode_small v h = encode_1 v h ∙ ground arith

pub encoded_size_small : (v : ℕ) → v < 0x40 → encoded_size v ≡ ok 1
unfolding encoded_size
encoded_size_small v h = ground arith
