-- ===== src/Huffman/Printable.antt =====
-- Printable characters: no code of theirs is long enough to lose bits.
use bnl.Prelude.{
  ℕ, ◌-◌, ◌≤◌, ◌<◌, ◌≡◌, ◌≢◌, refl, arith, Bool, true, false, ◌||◌, List, [], ◌∷◌, ◌++◌, length,
  All, IsByte, ltb, leb, leb→le, le→ltb, ◌==◌,
}
use bnl.Error.{ok}
use bnl.Huffman.{symbol_encode, encode, decode, Output}
use bnl.Huffman.Encoding.{symbol_at}
use bnl.Huffman.Encode.{size_of, loses, symbol-Holds}
use bnl.Huffman.Pack.{Holds}
use bnl.Huffman.Padding.{Kept, start, start-Holds}
use bnl.Huffman.RoundTrip.{decode-encode_huffman}
use bnl.Prelude.Sweep.{or-false, below, below-at}

-- A character of ASCII from the space to the tilde, other than the backslash.
abbrev pub Printable : ℕ → Type 0
Printable byte = (32 ≤ byte) × (byte < 127) × (byte ≢ 92)

all_short : below 127 (λ byte. ltb byte 32 || ((byte == 92) || leb (size_of byte) 16)) ≡ true
unfolding symbol_at
all_short = refl

ne→== : (a b : ℕ) → a ≢ b → (a == b) ≡ false
ne→== a b h = ground arith

size_le : (byte : ℕ) → Printable byte → size_of byte ≤ 16
size_le byte (l, u, n) = leb→le _ _ (
    or-false _ _
      (or-false _ _
        (below-at 127 byte (λ byte. ltb byte 32 || ((byte == 92) || leb (size_of byte) 16))
          all_short u)
        (le→ltb byte 32 l))
      (ne→== byte 92 n))

short-keeps : (m : ℕ) → m < 16 → loses m ≡ false
short-keeps m h = ground arith

pub Printable-Kept :
    (string : List ℕ) (out : Output) (xs : List Bool)
    → All Printable string
    → Holds out xs
    → 0 < out.rem_bits
    → Kept string out
Printable-Kept [] out xs a h p = tt
Printable-Kept (byte ∷ string) out xs (a, rest) h p =
    let b : IsByte byte = omega (arith, a.1) in
    let z = short-keeps (size_of byte - out.rem_bits) (omega (arith, size_le byte a)) in
    let (g, r) = symbol-Holds byte out xs b h p z in
    (b, z, Printable-Kept string (symbol_encode (symbol_at byte) out) _ rest g r)

-- `decode` reads back a string of printable characters without a backslash that `encode` wrote, and
-- leaves what follows. The string is not empty.
pub decode-encode-Printable :
    (string rest : List ℕ)
    → All Printable string
    → 0 < length string
    → decode (length (encode string)) (encode string ++ rest) ≡ (ok string, rest)
decode-encode-Printable string rest a l =
    decode-encode_huffman string rest (Printable-Kept string start [] a start-Holds (omega arith)) l
