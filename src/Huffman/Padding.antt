-- ===== src/Huffman/Padding.antt =====
-- The end of the encoder, and the bits of the whole string.
use bnl.Prelude.{
  ℕ, ◌+◌, ◌-◌, ◌*◌, ◌/◌, ◌%◌, ◌^◌, ◌<◌, ◌≡◌, refl, sym, ap, ◌∙◌, arith, Bool, true, false, ◌&&◌,
  List, [], ◌∷◌, ◌++◌, append_assoc, append-nil, All, All-append, IsByte, lt→ltb, le→ltb, ◌==◌,
  ==→eq, bit_or, replicate,
}
use bnl.Prelude.Bits.{bit_or-fields}
use native.Mathlib.Decide.{dec_lt}
use native.Mathlib.Nat.{one-le-pow}
use bnl.Huffman.{Output, symbol_encode, encode_loop, pad, encode}
use bnl.Huffman.Bits.{bits, bits-fields, pow-add, byte_bits, byte_bits-append}
use bnl.Huffman.Encoding.{symbol_at}
use bnl.Huffman.Pack.{Holds}
use bnl.Huffman.Encode.{size_of, codes, loses, same_bits, same_bits→eq, symbol-Holds}
use bnl.Prelude.Sweep.{below, below-at, and-left, and-right}

-- No symbol of the string meets the byte at `dest` in a way in which bits are lost.
abbrev pub Kept : List ℕ → Output → Type 0
Kept [] out = Unit {0}
Kept (byte ∷ string) out =
    IsByte byte
    × (loses (size_of byte - out.rem_bits) ≡ false)
    × Kept string (symbol_encode (symbol_at byte) out)

loop-Holds :
    (string : List ℕ) (out : Output) (xs : List Bool)
    → Kept string out
    → Holds out xs
    → 0 < out.rem_bits
    → Holds (encode_loop string out) (xs ++ codes string) × (0 < (encode_loop string out).rem_bits)
unfolding encode_loop codes
loop-Holds [] out xs k h p = rw (append-nil xs) (h, p)
loop-Holds (byte ∷ string) out xs (b, z, k) h p =
    let (g, r) = symbol-Holds byte out xs b h p z in
    rw (← append_assoc) (loop-Holds string (symbol_encode (symbol_at byte) out) _ k g r)

abbrev pub start : Output
start = record { written = []; current = 0; rem_bits = 8 }

pub start-Holds : Holds start []
unfolding byte_bits bits
start-Holds = record {
  filled = 0;
  has_bits = refl;
  has_current = λ l. absurd (omega arith);
  small = omega arith;
  in_byte = omega arith;
  has_bytes = tt;
}

-- The bits of a padded string, in bytes.
pub record Padded (string bytes : List ℕ) : Type 0 where
  pub padding : ℕ
  pub has_string : byte_bits bytes ≡ codes string ++ replicate padding true
  pub short : padding < 8
  pub in_bytes : All IsByte bytes

abbrev pads : ℕ → Bool
pads r =
    (0x3fffffff / 2 ^ (30 - r) % 2 ^ 8 == 2 ^ r - 1)
    && same_bits (bits r (2 ^ r - 1)) (replicate r true)

all_pads : below 8 pads ≡ true
unfolding bits
all_pads = refl

-- The last byte, where bits are left in it.
module _ (string : List ℕ) (out : Output) (h : Holds out (codes string))
    (l : out.rem_bits < 8) where
  last_byte : ℕ
  last_byte = h.filled * 2 ^ out.rem_bits + (2 ^ out.rem_bits - 1)

  ones_small : 2 ^ out.rem_bits - 1 < 2 ^ out.rem_bits
  ones_small = omega (arith, one-le-pow out.rem_bits 2)

  last_written : bit_or out.current (0x3fffffff / 2 ^ (30 - out.rem_bits) % 2 ^ 8) ≡ last_byte
  unfolding last_byte
  last_written =
      let y : 0x3fffffff / 2 ^ (30 - out.rem_bits) % 2 ^ 8 ≡ 2 ^ out.rem_bits - 1 =
        ==→eq _ _ (and-left _ _ (below-at 8 out.rem_bits pads all_pads l)) in
      rw (h.has_current l, y)
        (bit_or-fields out.rem_bits h.filled (2 ^ out.rem_bits - 1) ones_small)

  last_bits : bits 8 last_byte ≡ bits (8 - out.rem_bits) h.filled ++ replicate out.rem_bits true
  unfolding last_byte
  last_bits =
      ap (λ (k : ℕ). bits k (h.filled * 2 ^ out.rem_bits + (2 ^ out.rem_bits - 1))) {x = 8}
        {y = 8 - out.rem_bits + out.rem_bits} (omega (arith, h.in_byte))
      ∙ bits-fields (8 - out.rem_bits) out.rem_bits h.filled (2 ^ out.rem_bits - 1) ones_small
      ∙ ap (◌++◌ (bits (8 - out.rem_bits) h.filled)) (
          same_bits→eq _ _ (
            and-right (0x3fffffff / 2 ^ (30 - out.rem_bits) % 2 ^ 8 == 2 ^ out.rem_bits - 1) _
              (below-at 8 out.rem_bits pads all_pads l)))

  last_byte-IsByte : IsByte last_byte
  unfolding last_byte
  last_byte-IsByte =
      grind (arith, ones_small, h.small, pow-add (8 - out.rem_bits) out.rem_bits, whole)
    where
      whole : 2 ^ (8 - out.rem_bits + out.rem_bits) ≡ 256
      whole =
          ap (λ (k : ℕ). 2 ^ k) {x = 8 - out.rem_bits + out.rem_bits} {y = 8}
            (omega (arith, h.in_byte))

  last-Padded : Padded string (out.written ++ (last_byte ∷ []))
  unfolding byte_bits
  last-Padded = record {
    padding = out.rem_bits;
    has_string =
        byte_bits-append out.written (last_byte ∷ [])
        ∙ ap (◌++◌ (byte_bits out.written)) (append-nil (bits 8 last_byte) ∙ last_bits)
        ∙ sym (
            append_assoc (byte_bits out.written) (bits (8 - out.rem_bits) h.filled)
              (replicate out.rem_bits true))
        ∙ ap (λ (ys : List Bool). ys ++ replicate out.rem_bits true) (sym h.has_bits);
    short = l;
    in_bytes = All-append IsByte out.written (last_byte ∷ []) h.has_bytes (last_byte-IsByte, tt);
  }

pad-Padded : (string : List ℕ) (out : Output) → Holds out (codes string) → Padded string (pad out)
unfolding pad symbol_at bits
pad-Padded string out h = elim (dec_lt out.rem_bits 8) [
  | yes l ↦ rw (lt→ltb out.rem_bits 8 l, last_written string out h l) (last-Padded string out h l)
  | no l ↦ rw (le→ltb out.rem_bits 8 (omega arith)) (record {
    padding = 0;
    has_string = sym (
        append-nil (codes string)
        ∙ h.has_bits
        ∙ ap (λ (k : ℕ). byte_bits out.written ++ bits k h.filled) {x = 8 - out.rem_bits} {y = 0}
            (omega arith)
        ∙ append-nil (byte_bits out.written));
    short = omega arith;
    in_bytes = h.has_bytes;
  })
]

-- The bytes of `encode` hold the bits of the string and ones to the end of the last byte, unless
-- bits were lost.
pub encode-Padded : (string : List ℕ) → Kept string start → Padded string (encode string)
unfolding encode
encode-Padded string k =
    pad-Padded string (encode_loop string start)
      (loop-Holds string start [] k start-Holds (omega arith)).0
