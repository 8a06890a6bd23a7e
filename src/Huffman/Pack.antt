-- ===== src/Huffman/Pack.antt =====
-- One symbol behind the bits that have been written.
use bnl.Prelude.{
  ℕ, ◌+◌, ◌-◌, ◌*◌, ◌/◌, ◌%◌, ◌^◌, ◌≤◌, ◌<◌, ◌≡◌, sym, ap, ◌∙◌, arith, Bool, List, [], ◌∷◌, ◌++◌,
  append_assoc, append-nil, All, All-append, IsByte, ◌==◌, ==→eq, if◌then◌else◌, Bool-cases, inl,
  inr, bit_or,
}
use bnl.Prelude.Bits.{bit_or-fields}
use native.Mathlib.Nat.{
  one-le-pow, pow-le-pow_right, div-lt_iff_lt-mul, div-add-mod', mod-lt, mod-eq_of_lt,
}
use bnl.Huffman.{Output, tail_encode, finish_byte}
use bnl.Huffman.Bits.{bits, bits-fields, byte_bits, byte_bits-append, pow-add}

-- The bits `xs` have been written: the whole bytes, and the top of the byte at `dest`.
pub record Holds (out : Output) (xs : List Bool) : Type 0 where
  pub filled : ℕ
  pub has_bits : xs ≡ byte_bits out.written ++ bits (8 - out.rem_bits) filled
  pub has_current : out.rem_bits < 8 → out.current ≡ filled * 2 ^ out.rem_bits
  pub small : filled < 2 ^ (8 - out.rem_bits)
  pub in_byte : out.rem_bits ≤ 8
  pub has_bytes : All IsByte out.written

-- The byte at `dest` is full.
full-Holds :
    (written : List ℕ) (current rem_bits : ℕ) (xs : List Bool)
    → rem_bits ≡ 0
    → Holds (record { written = written; current = current; rem_bits = rem_bits }) xs
    → Holds (record { written = written ++ (current ∷ []); current = 0; rem_bits = 8 }) xs
unfolding byte_bits bits
full-Holds written current rem_bits xs z h =
    let c : current ≡ h.filled =
      h.has_current (omega arith) ∙ ap (λ (r : ℕ). h.filled * 2 ^ r) z ∙ omega arith in
    let d : 8 - rem_bits ≡ 8 = omega arith in
    record {
      filled = 0;
      has_bits =
          h.has_bits
          ∙ ap (λ (k : ℕ). byte_bits written ++ bits k h.filled) d
          ∙ ap (λ (b : ℕ). byte_bits written ++ bits 8 b) (sym c)
          ∙ sym (
              append-nil _
              ∙ byte_bits-append written (current ∷ [])
              ∙ ap (◌++◌ (byte_bits written)) (append-nil (bits 8 current)));
      has_current = λ l. absurd (omega arith);
      small = omega arith;
      in_byte = omega arith;
      has_bytes =
          All-append IsByte written (current ∷ []) h.has_bytes
            (omega (arith, h.small, ap (λ (k : ℕ). 2 ^ k) d), tt);
    }

pub finish_byte-Holds :
    (out : Output) (xs : List Bool)
    → Holds out xs
    → Holds (finish_byte out) xs × (0 < (finish_byte out).rem_bits)
unfolding finish_byte
finish_byte-Holds out xs h = elim (Bool-cases (out.rem_bits == 0)) [
  | inl e ↦
      rw e
        (full-Holds out.written out.current out.rem_bits xs (==→eq out.rem_bits 0 e) h, omega arith)
  | inr e ↦ rw e (h, ground arith)
]

-- The byte at `dest`, as the bits in it and zeros.
unfoldable pub current_byte : Output → ℕ
current_byte out = if out.rem_bits == 8 then 0 else out.current

current_lem :
    (out : Output) (xs : List Bool) (h : Holds out xs)
    → current_byte out ≡ h.filled * 2 ^ out.rem_bits
unfolding current_byte
current_lem out xs h = elim (Bool-cases (out.rem_bits == 8)) [
  | inl e ↦
      let z : 2 ^ (8 - out.rem_bits) ≡ 1 = ap (λ (k : ℕ). 2 ^ (8 - k)) (==→eq out.rem_bits 8 e) in
      let f : h.filled ≡ 0 = omega (arith, h.small) in
      rw e (omega (arith, ap (λ (k : ℕ). k * 2 ^ out.rem_bits) f))
  | inr e ↦ rw e (h.has_current (ground (arith, h.in_byte)))
]

split_pow : (n r : ℕ) → n ≤ r → 2 ^ r ≡ 2 ^ n * 2 ^ (r - n)
split_pow n r l = ap (λ (k : ℕ). 2 ^ k) {x = r} {y = n + (r - n)} (omega arith) ∙ pow-add n (r - n)

byte_pow : (r : ℕ) → r ≤ 8 → 2 ^ r ≤ 2 ^ 8
byte_pow r l = pow-le-pow_right (omega arith) l

-- A code that fits into the byte.
module _ (out : Output) (xs : List Bool) (code n : ℕ) (h : Holds out xs) (c : code < 2 ^ n)
    (l : n ≤ out.rem_bits) where
  fit_part : code * 2 ^ (out.rem_bits - n) < 2 ^ out.rem_bits
  fit_part =
      grind (arith, split_pow n out.rem_bits l, one-le-pow (out.rem_bits - n) 2 (omega arith))

  fit_small : h.filled * 2 ^ n + code < 2 ^ (8 - (out.rem_bits - n))
  fit_small =
      let e : 2 ^ (8 - (out.rem_bits - n)) ≡ 2 ^ (8 - out.rem_bits) * 2 ^ n =
        ap (λ (k : ℕ). 2 ^ k) {x = 8 - (out.rem_bits - n)} {y = (8 - out.rem_bits) + n}
          (omega (arith, h.in_byte))
        ∙ pow-add (8 - out.rem_bits) n in
      grind (arith, e, h.small)

  pub fit-Holds :
      Holds
        (record out {
          current = bit_or (current_byte out) (code * 2 ^ (out.rem_bits - n) % 2 ^ 8);
          rem_bits = out.rem_bits - n;
        })
        (xs ++ bits n code)
  fit-Holds = record {
    filled = h.filled * 2 ^ n + code;
    has_bits =
        ap (λ (ys : List Bool). ys ++ bits n code) h.has_bits
        ∙ append_assoc (byte_bits out.written) (bits (8 - out.rem_bits) h.filled) (bits n code)
        ∙ ap (◌++◌ (byte_bits out.written)) (
            sym (bits-fields (8 - out.rem_bits) n h.filled code c)
            ∙ ap (λ (k : ℕ). bits k (h.filled * 2 ^ n + code)) (omega (arith, h.in_byte)));
    has_current = λ z.
        let y : code * 2 ^ (out.rem_bits - n) % 2 ^ 8 ≡ code * 2 ^ (out.rem_bits - n) =
          mod-eq_of_lt (omega (arith, fit_part, byte_pow out.rem_bits h.in_byte)) in
        rw (current_lem out xs h, y)
          (bit_or-fields out.rem_bits h.filled (code * 2 ^ (out.rem_bits - n)) fit_part
            ∙ grind (arith, split_pow n out.rem_bits l));
    small = fit_small;
    in_byte = omega (arith, h.in_byte);
    has_bytes = h.has_bytes;
  }

-- What the bytes behind the first one have to hold: the low `m` bits of the code.
pub record Tail (code m : ℕ) : Type 0 where
  pub left : ℕ
  pub tail_bits :
      bits m (code % 2 ^ m)
      ≡ byte_bits (tail_encode code m).written ++ bits (8 - (tail_encode code m).rem_bits) left
  pub tail_current : (tail_encode code m).current ≡ left * 2 ^ (tail_encode code m).rem_bits
  pub tail_small : left < 2 ^ (8 - (tail_encode code m).rem_bits)
  pub tail_in_byte : (tail_encode code m).rem_bits ≤ 8
  pub tail_bytes : All IsByte (tail_encode code m).written

-- A code that goes on behind the byte.
module _ (out : Output) (xs : List Bool) (code n : ℕ) (h : Holds out xs) (c : code < 2 ^ n)
    (l : out.rem_bits < n) (t : Tail code (n - out.rem_bits)) where
  top_part : code / 2 ^ (n - out.rem_bits) < 2 ^ out.rem_bits
  top_part =
      (div-lt_iff_lt-mul {x = code} {y = 2 ^ out.rem_bits}
          (one-le-pow (n - out.rem_bits) 2 (omega arith))).1
        (omega (arith, split_pow out.rem_bits n (omega arith)))

  abbrev pub first_byte : ℕ
  first_byte = bit_or (current_byte out) (code / 2 ^ (n - out.rem_bits) % 2 ^ 8)

  first_byte_lem : first_byte ≡ h.filled * 2 ^ out.rem_bits + code / 2 ^ (n - out.rem_bits)
  first_byte_lem =
      let y : code / 2 ^ (n - out.rem_bits) % 2 ^ 8 ≡ code / 2 ^ (n - out.rem_bits) =
        mod-eq_of_lt (omega (arith, top_part, byte_pow out.rem_bits h.in_byte)) in
      rw (current_lem out xs h, y)
        (bit_or-fields out.rem_bits h.filled (code / 2 ^ (n - out.rem_bits)) top_part)

  first_byte-IsByte : IsByte first_byte
  first_byte-IsByte =
      grind
        (arith, first_byte_lem, top_part, h.small, pow-add (8 - out.rem_bits) out.rem_bits, whole)
    where
      whole : 2 ^ (8 - out.rem_bits + out.rem_bits) ≡ 256
      whole =
          ap (λ (k : ℕ). 2 ^ k) {x = 8 - out.rem_bits + out.rem_bits} {y = 8}
            (omega (arith, h.in_byte))

  code_split :
      bits n code
      ≡ bits out.rem_bits (code / 2 ^ (n - out.rem_bits))
        ++ bits (n - out.rem_bits) (code % 2 ^ (n - out.rem_bits))
  code_split =
      ap (λ (k : ℕ). bits k code) {x = n} {y = out.rem_bits + (n - out.rem_bits)} (omega arith)
      ∙ ap (bits (out.rem_bits + (n - out.rem_bits)))
          (sym (div-add-mod' code (2 ^ (n - out.rem_bits))))
      ∙ bits-fields out.rem_bits (n - out.rem_bits) (code / 2 ^ (n - out.rem_bits))
          (code % 2 ^ (n - out.rem_bits))
          (mod-lt code (one-le-pow (n - out.rem_bits) 2 (omega arith)))

  first_bits :
      bits 8 first_byte
      ≡ bits (8 - out.rem_bits) h.filled ++ bits out.rem_bits (code / 2 ^ (n - out.rem_bits))
  first_bits =
      ap (bits 8) first_byte_lem
      ∙ ap (λ (k : ℕ). bits k (h.filled * 2 ^ out.rem_bits + code / 2 ^ (n - out.rem_bits))) {x = 8}
          {y = 8 - out.rem_bits + out.rem_bits} (omega (arith, h.in_byte))
      ∙ bits-fields (8 - out.rem_bits) out.rem_bits h.filled (code / 2 ^ (n - out.rem_bits))
          top_part

  pub overflow-Holds :
      Holds
        (record {
          written = out.written ++ (first_byte ∷ (tail_encode code (n - out.rem_bits)).written);
          current = (tail_encode code (n - out.rem_bits)).current;
          rem_bits = (tail_encode code (n - out.rem_bits)).rem_bits;
        })
        (xs ++ bits n code)
  unfolding byte_bits
  overflow-Holds = record {
    filled = t.left;
    has_bits =
        rw (h.has_bits, code_split, t.tail_bits, byte_bits-append, first_bits) (simp append_assoc);
    has_current = λ z. t.tail_current;
    small = t.tail_small;
    in_byte = t.tail_in_byte;
    has_bytes = All-append IsByte out.written _ h.has_bytes (first_byte-IsByte, t.tail_bytes);
  }
