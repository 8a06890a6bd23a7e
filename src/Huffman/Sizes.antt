-- ===== src/Huffman/Sizes.antt =====
-- `huffman::encoded_size` against what `huffman::encode` writes.
use bnl.Prelude.{
  ℕ, zero, suc, ◌+◌, ◌-◌, ◌*◌, ◌/◌, ◌%◌, ◌^◌, ◌≤◌, ◌<◌, ◌≡◌, arith, List, [], ◌∷◌, length,
  length-append, lt→ltb, le→ltb, ◌==◌, Bool-cases, inl, inr, bit_or, ==→eq,
}
use native.Mathlib.Decide.{dec_le, dec_lt}
use bnl.Huffman.{
  Output, tail_loop, tail_encode, align, finish_byte, symbol_encode, encode_loop, pad, encode,
  encoded_size, count_bits,
}
use bnl.Huffman.Encoding.{symbol_at}
use bnl.Huffman.Encoding.Entry.{Symbol, symbol_code, symbol_bits}
use bnl.Huffman.Pack.{current_byte}
use bnl.Huffman.Encode.{symbol_encode-fit, symbol_encode-overflow}

-- The rounds of the `while` loop, and the bits that they leave.
tail_loop_count :
    (fuel code n : ℕ)
    → n ≤ fuel
    → 0 < n
    → (8 * length (tail_loop fuel code n).0 + (tail_loop fuel code n).1 ≡ n)
      × (0 < (tail_loop fuel code n).1)
      × ((tail_loop fuel code n).1 ≤ 8)
unfolding tail_loop
tail_loop_count zero code n l p = absurd (omega arith)
tail_loop_count (suc fuel) code n l p = elim (dec_lt 8 n) [
  | yes q ↦
      let (a, b, c) = tail_loop_count fuel code (n - 8) (omega arith) (omega arith) in
      rw (lt→ltb 8 n q) (omega arith, b, c)
  | no q ↦ rw (le→ltb 8 n (omega arith)) (omega arith, p, omega arith)
]

-- `n` bits have been written.
abbrev Counts : Output → ℕ → Type 0
Counts out n = (8 * length out.written + (8 - out.rem_bits) ≡ n) × (out.rem_bits ≤ 8)

finish_byte-Counts :
    (out : Output) (n : ℕ)
    → Counts out n
    → Counts (finish_byte out) n × (0 < (finish_byte out).rem_bits)
unfolding finish_byte
finish_byte-Counts out n h = elim (Bool-cases (out.rem_bits == 0)) [
  | inl e ↦ rw e (
    (
      omega (arith, length-append out.written (out.current ∷ []), ==→eq out.rem_bits 0 e, h.0),
      omega arith,
    ),
    omega arith,
  )
  | inr e ↦ rw e (h, ground arith)
]

symbol-Counts :
    (entry : Symbol) (out : Output) (n : ℕ)
    → Counts out n
    → 0 < out.rem_bits
    → Counts (symbol_encode entry out) (n + symbol_bits entry)
      × (0 < (symbol_encode entry out).rem_bits)
unfolding tail_encode
symbol-Counts entry out n (c, l) p = elim (dec_le (symbol_bits entry) out.rem_bits) [
  | yes q ↦ rw (symbol_encode-fit entry out q) (finish_byte-Counts _ _ (omega arith, omega arith))
  | no q ↦
      let (a, b, d) =
        tail_loop_count (symbol_bits entry - out.rem_bits)
          (align (symbol_code entry) (symbol_bits entry - out.rem_bits))
          (symbol_bits entry - out.rem_bits) (omega arith) (omega arith) in
      rw (symbol_encode-overflow entry out (omega arith)) (
        finish_byte-Counts _ _ (
          omega (
            arith,
            length-append out.written (
                bit_or (current_byte out)
                  (symbol_code entry / 2 ^ (symbol_bits entry - out.rem_bits) % 2 ^ 8)
                ∷ (tail_encode (symbol_code entry) (symbol_bits entry - out.rem_bits)).written),
          ),
          omega arith,
        ))
]

loop-Counts :
    (string : List ℕ) (out : Output) (n : ℕ)
    → Counts out n
    → 0 < out.rem_bits
    → Counts (encode_loop string out) (n + count_bits string)
      × (0 < (encode_loop string out).rem_bits)
unfolding encode_loop count_bits
loop-Counts [] out n c p = ((omega (arith, c.0), c.1), p)
loop-Counts (byte ∷ string) out n c p =
    let (d, q) = symbol-Counts (symbol_at byte) out n c p in
    let ((e, f), g) =
      loop-Counts string (symbol_encode (symbol_at byte) out) (n + symbol_bits (symbol_at byte)) d
        q in
    ((omega arith, f), g)

-- `encode` fills exactly the buffer of `encoded_size` bytes, for every string.
pub length-encode_huffman : (string : List ℕ) → length (encode string) ≡ encoded_size string
unfolding encode encoded_size pad symbol_at
length-encode_huffman string =
    let out = encode_loop string (record { written = []; current = 0; rem_bits = 8 }) in
    let ((c, l), p) =
      loop-Counts string (record { written = []; current = 0; rem_bits = 8 }) 0
        (omega arith, omega arith) (omega arith) in
    elim (dec_lt out.rem_bits 8) [
      | yes q ↦ rw (lt→ltb out.rem_bits 8 q) (
          omega (
            arith,
            length-append out.written
                (bit_or out.current (0x3fffffff / 2 ^ (30 - out.rem_bits) % 2 ^ 8) ∷ []),
          ))
      | no q ↦ rw (le→ltb out.rem_bits 8 (omega arith)) (omega arith)
    ]
