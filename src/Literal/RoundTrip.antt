-- ===== src/Literal/RoundTrip.antt =====
-- `decode` after `encode`, and the size of what `encode` writes.
use bnl.Prelude.{
  ℕ, ◌+◌, ◌/◌, ◌%◌, ◌^◌, ◌≤◌, ◌<◌, ◌≡◌, refl, sym, ap, ◌∙◌, arith, Bool, true, false, not, ◌&&◌,
  ◌||◌, List, [], ◌∷◌, ◌++◌, append_assoc, length, length-append, take-append, drop-append, ltb,
  le→ltb, lt→ltb, ltb→lt, ◌==◌, bit_or, All, IsByte,
}
use bnl.Prelude.Sweep.{or-false, below, below-at, and-left, and-right}
use bnl.Error.{ok}
use bnl.Reader.{commit}
use bnl.PrefixInt
use bnl.PrefixInt.{max_of_prefix}
use bnl.PrefixInt.RoundTrip.{decode-encode_prefix, encode-keeps_high, length-encode}
use bnl.Huffman
use bnl.Huffman.Padding.{Kept, start, start-Holds}
use bnl.Huffman.Printable.{Printable, Printable-Kept}
use bnl.Huffman.RoundTrip.{decode-encode_huffman}
use bnl.Huffman.Sizes.{length-encode_huffman}
use native.Mathlib.Decide.{dec_lt}
use bnl.Literal.{smaller_size, encoded_size, encode, is_huffman, payload_decode, decode}

-- The bit above the prefix, in a byte where it is 0.
abbrev is_clear : ℕ → ℕ → Bool
is_clear prefix byte = byte / 2 ^ prefix % 2 == 0

abbrev sets_bit : ℕ → ℕ → Bool
sets_bit prefix byte =
    let marked = bit_or byte (2 ^ prefix % 2 ^ 8) in
    not (is_huffman prefix byte) && (is_huffman prefix marked && ltb marked 256)

all_bits :
    below 8 (λ prefix. below 256 (λ byte. not (is_clear prefix byte) || sets_bit prefix byte))
    ≡ true
all_bits = refl

-- `decode` on an integer and what follows it.
decode_behind :
    (prefix first size : ℕ) (tail : List ℕ)
    → prefix ≤ 8
    → IsByte first
    → size < max_of_prefix prefix + 2 ^ 32
    → decode prefix (PrefixInt.encode first size prefix ++ tail)
      ≡ commit
          (PrefixInt.encode first size prefix ++ tail)
          (payload_decode (is_huffman prefix first) size tail)
unfolding decode
decode_behind prefix first size tail hp hf hs =
    let (head, more, e, q) = encode-keeps_high prefix first size hp hf in
    let d : PrefixInt.decode prefix (head ∷ (more ++ tail)) ≡ (ok size, tail) =
      ap (λ (xs : List ℕ). PrefixInt.decode prefix (xs ++ tail)) (sym e)
      ∙ decode-encode_prefix prefix first size tail hp hf hs in
    rw (e, d, q) refl

not-true : (b : Bool) → not b ≡ true → b ≡ false
not-true false h = refl
not-true true h = cc

-- The marked byte, and a byte whose bit is clear.
clear_lem :
    (prefix byte : ℕ)
    → prefix < 8
    → IsByte byte
    → byte / 2 ^ prefix % 2 ≡ 0
    → (is_huffman prefix byte ≡ false)
      × (is_huffman prefix (bit_or byte (2 ^ prefix % 2 ^ 8)) ≡ true)
      × IsByte (bit_or byte (2 ^ prefix % 2 ^ 8))
clear_lem prefix byte hp hb h =
    let a : below 256 (λ b. not (is_clear prefix b) || sets_bit prefix b) ≡ true =
      below-at 8 prefix (λ p. below 256 (λ b. not (is_clear p b) || sets_bit p b)) all_bits hp in
    let b : (not (is_clear prefix byte) || sets_bit prefix byte) ≡ true =
      below-at 256 byte (λ b. not (is_clear prefix b) || sets_bit prefix b) a hb in
    let c : sets_bit prefix byte ≡ true = or-false (not (is_clear prefix byte)) _ b (rw h refl) in
    let d = and-right (not (is_huffman prefix byte)) _ c in
    (
      not-true _ (and-left _ _ c),
      and-left _ _ d,
      ltb→lt _ _ (and-right (is_huffman prefix (bit_or byte (2 ^ prefix % 2 ^ 8))) _ d),
    )

-- The payload in both forms.
payload_plain :
    (literal rest : List ℕ)
    → payload_decode false (length literal) (literal ++ rest) ≡ (ok literal, rest)
unfolding payload_decode
payload_plain literal rest =
    rw
      (
        le→ltb (length (literal ++ rest)) (length literal)
            (omega (arith, length-append literal rest)),
        take-append literal rest,
        drop-append literal rest,
      )
      refl

payload_coded :
    (literal rest : List ℕ)
    → Kept literal start
    → 0 < length literal
    → payload_decode true (Huffman.encoded_size literal) (Huffman.encode literal ++ rest)
      ≡ (ok literal, rest)
unfolding payload_decode
payload_coded literal rest k l =
    rw
      (
        ← length-encode_huffman literal,
        le→ltb (length (Huffman.encode literal ++ rest)) (length (Huffman.encode literal))
            (omega (arith, length-append (Huffman.encode literal) rest)),
      )
      (decode-encode_huffman literal rest k l)

-- No bits of the string are lost in the Huffman code, if that is the shorter form, and its size is
-- one that the integers of every prefix can hold.
abbrev pub Readable : List ℕ → Type 0
Readable literal =
    (Huffman.encoded_size literal < length literal → Kept literal start) × (length literal < 2 ^ 32)

-- Printable characters without the backslash.
pub Printable-Readable :
    (literal : List ℕ) → All Printable literal → length literal < 2 ^ 32 → Readable literal
Printable-Readable literal a l =
    ((λ shorter. Printable-Kept literal start [] a start-Holds (omega arith)), l)

-- `decode` reads back the string that `encode` wrote into a byte where the bit above the prefix is
-- 0, and leaves what follows. If the Huffman code is the shorter form, no bits are lost in it; the
-- size is one that the integers of the prefix can hold.
pub decode-encode_literal :
    (prefix first : ℕ) (literal rest : List ℕ)
    → prefix < 8
    → IsByte first
    → first / 2 ^ prefix % 2 ≡ 0
    → (Huffman.encoded_size literal < length literal → Kept literal start)
    → length literal < 2 ^ 32
    → decode prefix (encode first literal prefix ++ rest) ≡ (ok literal, rest)
unfolding encode smaller_size
decode-encode_literal prefix first literal rest hp hf hc k hl =
    let (plain, coded, byte) = clear_lem prefix first hp hf hc in
    let marked = bit_or first (2 ^ prefix % 2 ^ 8) in
    elim (dec_lt (Huffman.encoded_size literal) (length literal)) [
      | yes p ↦
          rw
            (
              lt→ltb (Huffman.encoded_size literal) (length literal) p,
              lt→ltb (Huffman.encoded_size literal) (length literal) p,
              append_assoc (PrefixInt.encode marked (Huffman.encoded_size literal) prefix)
                  (Huffman.encode literal) rest,
              decode_behind prefix marked (Huffman.encoded_size literal)
                  (Huffman.encode literal ++ rest) (omega arith) byte (omega arith),
              coded,
              payload_coded literal rest (k p) (omega arith),
            )
            refl
      | no p ↦
          rw
            (
              le→ltb (Huffman.encoded_size literal) (length literal) (omega arith),
              le→ltb (length literal) (length literal) (omega arith),
              append_assoc (PrefixInt.encode first (length literal) prefix) literal rest,
              decode_behind prefix first (length literal) (literal ++ rest) (omega arith) hf
                  (omega arith),
              plain,
              payload_plain literal rest,
            )
            refl
    ]

-- `encode` fills exactly the `encoded_size` bytes, for every string.
pub length-encode_literal :
    (prefix first : ℕ) (literal : List ℕ)
    → length (encode first literal prefix) ≡ encoded_size literal prefix
unfolding encode encoded_size smaller_size
length-encode_literal prefix first literal =
    elim (dec_lt (Huffman.encoded_size literal) (length literal)) [
      | yes p ↦
          rw
            (
              lt→ltb (Huffman.encoded_size literal) (length literal) p,
              lt→ltb (Huffman.encoded_size literal) (length literal) p,
            )
            (length-append
                (PrefixInt.encode (bit_or first (2 ^ prefix % 2 ^ 8)) (Huffman.encoded_size literal)
                  prefix)
                (Huffman.encode literal)
              ∙ rw
                  (
                    length-encode prefix (bit_or first (2 ^ prefix % 2 ^ 8))
                        (Huffman.encoded_size literal),
                    length-encode_huffman literal,
                  )
                  refl)
      | no p ↦
          rw
            (
              le→ltb (Huffman.encoded_size literal) (length literal) (omega arith),
              le→ltb (length literal) (length literal) (omega arith),
            )
            (length-append (PrefixInt.encode first (length literal) prefix) literal
              ∙ rw (length-encode prefix first (length literal)) refl)
    ]
