-- ===== src/Huffman/Encode.antt =====
-- The encoder and the bits of its string.
use bnl.Prelude.{
  ℕ, ◌-◌, ◌*◌, ◌/◌, ◌%◌, ◌^◌, ◌≤◌, ◌<◌, ◌≡◌, refl, ap, arith, Bool, true, false, ◌&&◌, ◌||◌, List,
  [], ◌∷◌, ◌++◌, All, IsByte, ltb, leb, ltb→lt, leb→le, le→leb, lt→leb, ◌==◌, ==→eq, bit_or,
}
use native.Mathlib.Decide.{dec_le}
use bnl.Huffman.{Output, tail_encode, finish_byte, symbol_encode}
use bnl.Huffman.Bits.{bits, byte_bits}
use bnl.Huffman.Encoding.{symbol_at}
use bnl.Huffman.Encoding.Entry.{Symbol, symbol_code, symbol_bits}
use bnl.Huffman.Pack.{Holds, Tail, current_byte, finish_byte-Holds, fit-Holds, overflow-Holds}
use bnl.Prelude.Sweep.{below, below-at, and-left, and-right, or-false}

abbrev pub code_of : ℕ → ℕ
code_of byte = symbol_code (symbol_at byte)

abbrev pub size_of : ℕ → ℕ
size_of byte = symbol_bits (symbol_at byte)

-- The bits of a string.
unfoldable pub codes : List ℕ → List Bool
codes [] = []
codes (byte ∷ string) = bits (size_of byte) (code_of byte) ++ codes string

abbrev pub same_bits : List Bool → List Bool → Bool
same_bits [] [] = true
same_bits (true ∷ xs) (true ∷ ys) = same_bits xs ys
same_bits (false ∷ xs) (false ∷ ys) = same_bits xs ys
same_bits xs ys = false

abbrev all_bytes : List ℕ → Bool
all_bytes [] = true
all_bytes (b ∷ bs) = ltb b 256 && all_bytes bs

abbrev tail_left : Output → ℕ
tail_left out = out.current / 2 ^ out.rem_bits

-- The bytes behind the first hold `m` bits of the code.
abbrev tail_holds : ℕ → ℕ → Bool
tail_holds code m =
    let out = tail_encode code m in
    same_bits (bits m (code % 2 ^ m))
      (byte_bits out.written ++ bits (8 - out.rem_bits) (tail_left out))
    && ((out.current == tail_left out * 2 ^ out.rem_bits)
        && (ltb (tail_left out) (2 ^ (8 - out.rem_bits))
            && (leb out.rem_bits 8 && all_bytes out.written)))

-- `symbol_encode` loses bits of a code of which 16 or 24 are left behind the first byte.
abbrev pub loses : ℕ → Bool
loses m = (m == 16) || (m == 24)

abbrev tail_fine : ℕ → ℕ → Bool
tail_fine byte rem_bits =
    leb (size_of byte) rem_bits
    || (loses (size_of byte - rem_bits) || tail_holds (code_of byte) (size_of byte - rem_bits))

all_tails : below 256 (λ byte. below 9 (λ r. (r == 0) || tail_fine byte r)) ≡ true
unfolding symbol_at bits byte_bits tail_encode
all_tails = refl

all_codes_fit : below 257 (λ byte. ltb (code_of byte) (2 ^ size_of byte)) ≡ true
unfolding symbol_at
all_codes_fit = refl

pub same_bits→eq : (xs ys : List Bool) → same_bits xs ys ≡ true → xs ≡ ys
same_bits→eq [] [] h = refl
same_bits→eq (true ∷ xs) (true ∷ ys) h = ap (◌∷◌ true) (same_bits→eq xs ys h)
same_bits→eq (false ∷ xs) (false ∷ ys) h = ap (◌∷◌ false) (same_bits→eq xs ys h)
same_bits→eq [] (y ∷ ys) h = cc
same_bits→eq (true ∷ xs) [] h = cc
same_bits→eq (false ∷ xs) [] h = cc
same_bits→eq (true ∷ xs) (false ∷ ys) h = cc
same_bits→eq (false ∷ xs) (true ∷ ys) h = cc

all_bytes_lem : (bs : List ℕ) → all_bytes bs ≡ true → All IsByte bs
all_bytes_lem [] h = tt
all_bytes_lem (b ∷ bs) h =
    (ltb→lt b 256 (and-left (ltb b 256) _ h), all_bytes_lem bs (and-right (ltb b 256) _ h))

holds-Tail : (code m : ℕ) → tail_holds code m ≡ true → Tail code m
holds-Tail code m h =
    let out = tail_encode code m in
    let h1 =
      and-right
        (same_bits (bits m (code % 2 ^ m))
          (byte_bits out.written ++ bits (8 - out.rem_bits) (tail_left out)))
        _ h in
    let h2 = and-right (out.current == tail_left out * 2 ^ out.rem_bits) _ h1 in
    let h3 = and-right (ltb (tail_left out) (2 ^ (8 - out.rem_bits))) _ h2 in
    record {
      left = tail_left out;
      tail_bits = same_bits→eq _ _ (and-left _ _ h);
      tail_current = ==→eq _ _ (and-left _ _ h1);
      tail_small = ltb→lt _ _ (and-left _ _ h2);
      tail_in_byte = leb→le out.rem_bits 8 (and-left _ _ h3);
      tail_bytes = all_bytes_lem out.written (and-right (leb out.rem_bits 8) _ h3);
    }

pos→== : (r : ℕ) → 0 < r → (r == 0) ≡ false
pos→== r h = ground arith

byte-Tail :
    (byte rem_bits : ℕ)
    → IsByte byte
    → 0 < rem_bits
    → rem_bits ≤ 8
    → rem_bits < size_of byte
    → loses (size_of byte - rem_bits) ≡ false
    → Tail (code_of byte) (size_of byte - rem_bits)
byte-Tail byte r h p l s z =
    let a : below 9 (λ r. (r == 0) || tail_fine byte r) ≡ true =
      below-at 256 byte (λ byte. below 9 (λ r. (r == 0) || tail_fine byte r)) all_tails h in
    let b : ((r == 0) || tail_fine byte r) ≡ true =
      below-at 9 r (λ r. (r == 0) || tail_fine byte r) a (omega arith) in
    let c = or-false (r == 0) _ b (pos→== r p) in
    let d = or-false (leb (size_of byte) r) _ c (lt→leb (size_of byte) r s) in
    holds-Tail (code_of byte) (size_of byte - r) (or-false (loses (size_of byte - r)) _ d z)

code_fits : (byte : ℕ) → byte < 257 → code_of byte < 2 ^ size_of byte
code_fits byte h =
    ltb→lt _ _ (below-at 257 byte (λ byte. ltb (code_of byte) (2 ^ size_of byte)) all_codes_fit h)

-- Both branches of `symbol_encode`.
pub symbol_encode-fit :
    (entry : Symbol) (out : Output)
    → symbol_bits entry ≤ out.rem_bits
    → symbol_encode entry out
      ≡ finish_byte (record out {
        current =
            bit_or
              (current_byte out)
              (symbol_code entry * 2 ^ (out.rem_bits - symbol_bits entry) % 2 ^ 8);
        rem_bits = out.rem_bits - symbol_bits entry;
      })
unfolding symbol_encode current_byte
symbol_encode-fit entry out l = rw (le→leb (symbol_bits entry) out.rem_bits l) refl

pub symbol_encode-overflow :
    (entry : Symbol) (out : Output)
    → out.rem_bits < symbol_bits entry
    → symbol_encode entry out
      ≡ finish_byte (record {
        written =
            out.written
            ++ (bit_or
                  (current_byte out)
                  (symbol_code entry / 2 ^ (symbol_bits entry - out.rem_bits) % 2 ^ 8)
                ∷ (tail_encode (symbol_code entry) (symbol_bits entry - out.rem_bits)).written);
        current = (tail_encode (symbol_code entry) (symbol_bits entry - out.rem_bits)).current;
        rem_bits = (tail_encode (symbol_code entry) (symbol_bits entry - out.rem_bits)).rem_bits;
      })
unfolding symbol_encode current_byte
symbol_encode-overflow entry out l = rw (lt→leb (symbol_bits entry) out.rem_bits l) refl

-- A symbol is added behind what has been written.
pub symbol-Holds :
    (byte : ℕ) (out : Output) (xs : List Bool)
    → IsByte byte
    → Holds out xs
    → 0 < out.rem_bits
    → loses (size_of byte - out.rem_bits) ≡ false
    → Holds (symbol_encode (symbol_at byte) out) (xs ++ bits (size_of byte) (code_of byte))
      × (0 < (symbol_encode (symbol_at byte) out).rem_bits)
symbol-Holds byte out xs b h p z = elim (dec_le (size_of byte) out.rem_bits) [
  | yes l ↦ rw (symbol_encode-fit (symbol_at byte) out l) (
      finish_byte-Holds _ _
        (fit-Holds out xs (code_of byte) (size_of byte) h (code_fits byte (omega arith)) l))
  | no l ↦
      let g : out.rem_bits < size_of byte = omega arith in
      rw (symbol_encode-overflow (symbol_at byte) out g) (
        finish_byte-Holds _ _ (
          overflow-Holds out xs (code_of byte) (size_of byte) h (code_fits byte (omega arith)) g
            (byte-Tail byte out.rem_bits b p h.in_byte g z)))
]
