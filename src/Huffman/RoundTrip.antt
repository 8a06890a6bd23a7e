-- ===== src/Huffman/RoundTrip.antt =====
-- `huffman::decode` after `huffman::encode`.
use bnl.Prelude.{
  ℕ, ◌<◌, ◌≡◌, refl, ap, ◌∙◌, arith, Bool, true, false, List, [], ◌∷◌, ◌++◌, append_assoc, length,
  length-append, take, drop, take-append, drop-append, All, IsByte, some, le→ltb, replicate,
}
use bnl.Error.{ok}
use bnl.Huffman.{Output, encode, decode, decoded_size, decode_loop}
use bnl.Huffman.Bits.{bits, byte_bits}
use bnl.Huffman.Walk.{walk, walk-code, walk-padding}
use bnl.Huffman.Decode.{walk-append, loops-walk}
use bnl.Huffman.Encode.{codes, code_of, size_of}
use bnl.Huffman.Padding.{Kept, start, encode-Padded}

Kept-All : (string : List ℕ) → (out : Output) → Kept string out → All IsByte string
Kept-All [] out k = tt
Kept-All (byte ∷ string) out (b, z, k) = (b, Kept-All string _ k)

walk-codes :
    (string : List ℕ) (ys : List Bool) (t : ℕ)
    → All IsByte string
    → walk ys 0 ≡ some ([], t)
    → walk (codes string ++ ys) 0 ≡ some (string, t)
unfolding codes
walk-codes [] ys t h e = e
walk-codes (byte ∷ string) ys t h e =
    ap (λ (w : List Bool). walk w 0)
      (append_assoc (bits (size_of byte) (code_of byte)) (codes string) ys)
    ∙ walk-append (bits (size_of byte) (code_of byte)) (codes string ++ ys) 0
    ∙ rw (walk-code byte h.0, walk-codes string ys t h.1 e) refl

no_bytes :
    (string bytes : List ℕ) (t : ℕ)
    → walk (byte_bits bytes) 0 ≡ some (string, t)
    → 0 < length string
    → bytes ≡ []
    → false ≡ true
unfolding walk byte_bits
no_bytes [] bytes t e l z = absurd (omega arith)
no_bytes (x ∷ string) [] t e l z = cc
no_bytes (x ∷ string) (b ∷ bytes) t e l z = cc

decode_decoded :
    (size : ℕ) (encoded : List ℕ) (n : ℕ)
    → decoded_size encoded size ≡ ok n
    → decode size encoded ≡ (ok (decode_loop (take size encoded) 0), drop size encoded)
unfolding decode
decode_decoded size encoded n e = rw (decode, e) refl

-- `decode` reads back a string that `encode` wrote without a loss, and leaves what follows. The
-- string is not empty.
pub decode-encode_huffman :
    (string rest : List ℕ)
    → Kept string start
    → 0 < length string
    → decode (length (encode string)) (encode string ++ rest) ≡ (ok string, rest)
unfolding decoded_size
decode-encode_huffman string rest k l =
    let p = encode-Padded string k in
    let (t, w, q) = walk-padding p.padding p.short in
    let walked : walk (byte_bits (encode string)) 0 ≡ some (string, t) =
      ap (λ (x : List Bool). walk x 0) p.has_string
      ∙ walk-codes string (replicate p.padding true) t (Kept-All string start k) w in
    let (c, d) =
      loops-walk (encode string) 0 false 0 string t p.in_bytes (omega arith) walked q
        (no_bytes string (encode string) t walked l) in
    let n : decoded_size (encode string ++ rest) (length (encode string)) ≡ ok (length string) =
      rw
        (
          le→ltb (length (encode string ++ rest)) (length (encode string))
              (omega (arith, length-append (encode string) rest)),
          take-append (encode string) rest,
          c,
        )
        (ap ok (omega arith)) in
    decode_decoded (length (encode string)) (encode string ++ rest) (length string) n
    ∙ rw (take-append (encode string) rest, drop-append (encode string) rest, d) refl
