-- ===== src/PrefixInt/RoundTrip.antt =====
-- What `decode` makes of the bytes that `encode` wrote.
use bnl.Prelude.{
  ℕ, ◌+◌, ◌-◌, ◌*◌, ◌/◌, ◌%◌, ◌^◌, ◌≤◌, ◌<◌, ◌≡◌, arith, List, [], ◌∷◌, ◌++◌, length, bit_and,
  bit_or, lt_wf, ap, ◌∙◌, IsByte,
}
use bnl.Prelude.Bits.{
  bit_and-ones, bit_and-fields, bit_and_0x80, bit_or-prefix, bit_and-prefix, bit_or-fields,
  ones_fit,
}
use bnl.Error.{ok}
use bnl.PrefixInt.{
  encode, encoded_size, decode, write_loop, size_loop, read_loop, max_of_prefix, quotient_smaller,
}
use mathlib.Core.WellFounded.{Acc}
use native.Mathlib.Nat.{one-le-pow, div-add-mod}
use native.Mathlib.Decide.{dec_le, dec_lt}
use native.Mathlib.Bridge.{le_prop}
use mathlib.Core.Logic.{dif_pos}

-- One round of `read_loop` on a last byte, and on a byte with the top bit set.
read_last :
    (r o v : ℕ) (s : List ℕ)
    → v < 128
    → read_loop r o (v ∷ s) ≡ (ok ((r + v * (2 ^ o % 2 ^ 32) % 2 ^ 32) % 2 ^ 64), s)
unfolding read_loop
read_last r o v s h = ground (arith, bit_and-ones 7 v, bit_and_0x80 v)

read_more :
    (r o g : ℕ) (s : List ℕ)
    → g < 128
    → read_loop r o ((g + 128) ∷ s)
      ≡ read_loop ((r + g * (2 ^ o % 2 ^ 32) % 2 ^ 32) % 2 ^ 64) (o + 7) s
unfolding read_loop
read_more r o g s h = ground (arith, bit_and-ones 7 (g + 128), bit_and_0x80 (g + 128))

write_last : (v : ℕ) (w : Acc ◌<◌ v) → v < 128 → write_loop v w ≡ v ∷ []
unfolding write_loop
write_last v (Acc.intro _ smaller) h = ground arith

write_more :
    (v : ℕ) (w : Acc ◌<◌ v)
    → 128 ≤ v
    → (w' : Acc ◌<◌ (v / 128)) × (write_loop v w ≡ (v % 128 + 128) ∷ write_loop (v / 128) w')
unfolding write_loop
write_more v (Acc.intro _ smaller) h = (
  smaller (v / 128) (quotient_smaller v h),
  dif_pos (dec_le 128 v) le_prop h _ _
      ∙ ap (λ (b : ℕ). b ∷ write_loop (v / 128) (smaller (v / 128) (quotient_smaller v h)))
          (omega arith),
)

-- The reader on a whole number that starts at bit `o`, from its last possible byte downwards.
-- Each byte is cut to 32 bits by itself; only the one at bit 28 can lose anything.
abbrev Reads : ℕ → ℕ → ℕ → Type 0
Reads o limit most =
    (r v : ℕ) (w : Acc ◌<◌ v) (s : List ℕ)
    → v < limit
    → r < most
    → read_loop r o (write_loop v w ++ s) ≡ (ok (r + v * 2 ^ o % 2 ^ 32), s)

Reads-28 : Reads 28 (2 ^ 7) (2 ^ 44)
Reads-28 r v w s h f =
    rw (write_last v w (omega arith), read_last r 28 v s (omega arith)) (ground arith)

Reads-21 : Reads 21 (2 ^ 14) (2 ^ 43)
Reads-21 r v w s h f = elim (dec_lt v 128) [
  | yes p ↦ rw (write_last v w p, read_last r 21 v s p) (ground arith)
  | no p ↦
      let (w', e) = write_more v w (omega arith) in
      rw (e, read_more r 21 (v % 128) (write_loop (v / 128) w' ++ s) (omega arith))
        (Reads-28 ((r + v % 128 * (2 ^ 21 % 2 ^ 32) % 2 ^ 32) % 2 ^ 64) (v / 128) w' s (omega arith)
            (omega arith)
          ∙ ground arith)
]

Reads-14 : Reads 14 (2 ^ 21) (2 ^ 42)
Reads-14 r v w s h f = elim (dec_lt v 128) [
  | yes p ↦ rw (write_last v w p, read_last r 14 v s p) (ground arith)
  | no p ↦
      let (w', e) = write_more v w (omega arith) in
      rw (e, read_more r 14 (v % 128) (write_loop (v / 128) w' ++ s) (omega arith))
        (Reads-21 ((r + v % 128 * (2 ^ 14 % 2 ^ 32) % 2 ^ 32) % 2 ^ 64) (v / 128) w' s (omega arith)
            (omega arith)
          ∙ ground arith)
]

Reads-7 : Reads 7 (2 ^ 28) (2 ^ 41)
Reads-7 r v w s h f = elim (dec_lt v 128) [
  | yes p ↦ rw (write_last v w p, read_last r 7 v s p) (ground arith)
  | no p ↦
      let (w', e) = write_more v w (omega arith) in
      rw (e, read_more r 7 (v % 128) (write_loop (v / 128) w' ++ s) (omega arith))
        (Reads-14 ((r + v % 128 * (2 ^ 7 % 2 ^ 32) % 2 ^ 32) % 2 ^ 64) (v / 128) w' s (omega arith)
            (omega arith)
          ∙ ground arith)
]

Reads-0 : Reads 0 (2 ^ 35) (2 ^ 40)
Reads-0 r v w s h f = elim (dec_lt v 128) [
  | yes p ↦ rw (write_last v w p, read_last r 0 v s p) (ground arith)
  | no p ↦
      let (w', e) = write_more v w (omega arith) in
      rw (e, read_more r 0 (v % 128) (write_loop (v / 128) w' ++ s) (omega arith))
        (Reads-7 ((r + v % 128 * (2 ^ 0 % 2 ^ 32) % 2 ^ 32) % 2 ^ 64) (v / 128) w' s (omega arith)
            (omega arith)
          ∙ ground arith)
]

module _ (prefix first : ℕ) (hp : prefix ≤ 8) (hf : IsByte first) where
  most_lem : max_of_prefix prefix ≡ 2 ^ prefix - 1
  most_lem = ones_fit prefix hp

  -- A number below the maximum of the prefix stands in the first byte.
  decode_short :
      (value : ℕ) (s : List ℕ)
      → value < max_of_prefix prefix
      → decode prefix (encode first value prefix ++ s) ≡ (ok value, s)
  unfolding decode encode
  decode_short value s h =
      let m = most_lem in
      ground (
        arith,
        bit_and-prefix prefix first hp hf,
        bit_or-fields prefix (first / 2 ^ prefix) value,
        bit_and-fields prefix (first / 2 ^ prefix) value,
      )

  encode_long :
      (value : ℕ)
      → max_of_prefix prefix ≤ value
      → encode first value prefix
        ≡ bit_or first (max_of_prefix prefix)
          ∷ write_loop (value - max_of_prefix prefix) (lt_wf.apply (value - max_of_prefix prefix))
  unfolding encode
  encode_long value h = ground arith

  decode_full :
      (byte : ℕ) (s : List ℕ)
      → bit_and byte (max_of_prefix prefix) ≡ max_of_prefix prefix
      → decode prefix (byte ∷ s) ≡ read_loop (max_of_prefix prefix) 0 s
  unfolding decode
  decode_full byte s e = ground arith

  first_full :
      bit_and (bit_or first (max_of_prefix prefix)) (max_of_prefix prefix) ≡ max_of_prefix prefix
  first_full = ground (
    arith,
    most_lem,
    one-le-pow prefix 2,
    bit_or-prefix prefix first hp hf,
    bit_and-fields prefix (first / 2 ^ prefix) (2 ^ prefix - 1),
  )

  -- Any other number is its maximum and the rest of the number in the bytes that follow; of the
  -- rest only the low 32 bits come back.
  decode_long :
      (value : ℕ) (s : List ℕ)
      → max_of_prefix prefix ≤ value
      → value - max_of_prefix prefix < 2 ^ 35
      → decode prefix (encode first value prefix ++ s)
        ≡ (ok (max_of_prefix prefix + (value - max_of_prefix prefix) % 2 ^ 32), s)
  decode_long value s h f = rw (encode_long value h) (
      decode_full _ _ first_full
      ∙ Reads-0 (max_of_prefix prefix) (value - max_of_prefix prefix) _ s f (omega arith)
      ∙ ground arith)

-- `decode` reads back what `encode` wrote into a byte with any other bits, and leaves what follows:
-- for numbers that pass the maximum of the prefix by less than 2^32, and at most 8 bits of prefix.
pub decode-encode_prefix :
    (prefix first value : ℕ) (s : List ℕ)
    → prefix ≤ 8
    → IsByte first
    → value < max_of_prefix prefix + 2 ^ 32
    → decode prefix (encode first value prefix ++ s) ≡ (ok value, s)
decode-encode_prefix prefix first value s hp hf h = elim (dec_lt value (max_of_prefix prefix)) [
  | yes p ↦ decode_short prefix first hp hf value s p
  | no p ↦ decode_long prefix first hp hf value s (omega arith) (omega arith) ∙ ground arith
]

-- Numbers that pass the maximum of the prefix by 2^32 or more, and by less than 2^35, are read back
-- smaller by at least 2^32: the product of uint32_t loses their high bits. The prefix has at most
-- 8 bits.
pub decode_wraps :
    (prefix first value : ℕ) (s : List ℕ)
    → prefix ≤ 8
    → IsByte first
    → max_of_prefix prefix + 2 ^ 32 ≤ value
    → value < max_of_prefix prefix + 2 ^ 35
    → (wrong : ℕ) × (decode prefix (encode first value prefix ++ s) ≡ (ok wrong, s))
      × (wrong + 2 ^ 32 ≤ value)
decode_wraps prefix first value s hp hf l h = (
  max_of_prefix prefix + (value - max_of_prefix prefix) % 2 ^ 32,
  decode_long prefix first hp hf value s (omega arith) (omega arith),
  omega arith,
)

div-fields : (m q r : ℕ) → r < m → (q * m + r) / m ≡ q
div-fields m q r h = grind (arith, div-add-mod (q * m + r) m)

-- `encode` keeps the bits of the first byte above the prefix, which has at most 8 bits.
pub encode-keeps_high :
    (prefix first value : ℕ)
    → prefix ≤ 8
    → IsByte first
    → (head : ℕ) × (rest : List ℕ) × (encode first value prefix ≡ head ∷ rest)
      × (head / 2 ^ prefix ≡ first / 2 ^ prefix)
unfolding encode
encode-keeps_high prefix first value hp hf = elim (dec_lt value (max_of_prefix prefix)) [
  | yes p ↦ (
    first / 2 ^ prefix * 2 ^ prefix + value,
    [],
    ground (
      arith,
      ones_fit prefix hp,
      bit_and-prefix prefix first hp hf,
      bit_or-fields prefix (first / 2 ^ prefix) value,
    ),
    div-fields (2 ^ prefix) (first / 2 ^ prefix) value (omega (arith, ones_fit prefix hp)),
  )
  | no p ↦ (
    first / 2 ^ prefix * 2 ^ prefix + (2 ^ prefix - 1),
    write_loop (value - max_of_prefix prefix) (lt_wf.apply (value - max_of_prefix prefix)),
    ground (arith, ones_fit prefix hp, bit_or-prefix prefix first hp hf),
    div-fields (2 ^ prefix) (first / 2 ^ prefix) (2 ^ prefix - 1)
        (omega (arith, one-le-pow prefix 2)),
  )
]

size_loop-length : (v : ℕ) (w : Acc ◌<◌ v) (n : ℕ) → size_loop v w n ≡ n + length (write_loop v w)
unfolding size_loop write_loop
size_loop-length v (Acc.intro _ smaller) n = grind (
  arith,
  λ (p : 128 ≤ v). size_loop-length (v / 128) (smaller (v / 128) (quotient_smaller v p)) (n + 1),
)

-- `encoded_size` is the number of bytes that `encode` writes.
pub length-encode :
    (prefix first value : ℕ) → length (encode first value prefix) ≡ encoded_size value prefix
unfolding encode encoded_size
length-encode prefix first value = elim (dec_lt value (max_of_prefix prefix)) [
  | yes p ↦ ground arith
  | no p ↦ ground (arith, size_loop-length (value - max_of_prefix prefix) (lt_wf.apply _) 1)
]
