-- ===== src/Huffman/Bits.antt =====
-- Numbers as their bits.
use bnl.Prelude.{
  ℕ, zero, suc, ◌+◌, ◌*◌, ◌/◌, ◌%◌, ◌^◌, ◌<◌, ◌≡◌, refl, sym, ap, ◌∙◌, arith, Bool, List, [], ◌∷◌,
  ◌++◌, ◌==◌, append_assoc,
}
use native.Mathlib.Nat.{mul-add-div_right, div-div-eq-div-mul, div-eq_of_lt, pow-suc, one-le-pow}

-- The low `n` bits of a number, the highest of them first.
unfoldable pub bits : ℕ → ℕ → List Bool
bits zero value = []
bits (suc n) value = (value / 2 ^ n % 2 == 1) ∷ bits n value

pub pow-add : (n m : ℕ) → 2 ^ (n + m) ≡ 2 ^ n * 2 ^ m
pow-add zero m = ap (λ (k : ℕ). 2 ^ k) {x = 0 + m} {y = m} (omega arith) ∙ omega arith
pow-add (suc n) m =
    ap (λ (k : ℕ). 2 ^ k) {x = suc n + m} {y = suc (n + m)} (omega arith)
    ∙ grind (arith, pow-suc 2 (n + m), pow-suc 2 n, pow-add n m)

-- The bits above the lowest `m` do not count.
bits-low : (m q v : ℕ) → bits m (q * 2 ^ m + v) ≡ bits m v
unfolding bits
bits-low zero q v = refl
bits-low (suc m) q v =
    let e : q * 2 ^ suc m + v ≡ (q * 2) * 2 ^ m + v = grind (arith, pow-suc 2 m) in
    let f : (q * 2 ^ suc m + v) / 2 ^ m % 2 ≡ v / 2 ^ m % 2 =
      ap (λ (x : ℕ). x / 2 ^ m % 2) e
      ∙ ap (λ (x : ℕ). x % 2) (mul-add-div_right (one-le-pow m 2 (omega arith)) (q * 2) v)
      ∙ omega arith in
    rw f (ap (◌∷◌ (v / 2 ^ m % 2 == 1)) (ap (bits m) e ∙ bits-low m (q * 2) v))

shifted : (n m a b : ℕ) → b < 2 ^ m → (a * 2 ^ m + b) / 2 ^ (n + m) ≡ a / 2 ^ n
shifted n m a b h =
    ap (λ (k : ℕ). (a * 2 ^ m + b) / k) (pow-add n m ∙ grind arith)
    ∙ sym (div-div-eq-div-mul (a * 2 ^ m + b) (2 ^ m) (2 ^ n))
    ∙ ap (λ (k : ℕ). k / 2 ^ n)
        (mul-add-div_right (one-le-pow m 2 (omega arith)) a b
          ∙ ap (λ (k : ℕ). a + k) (div-eq_of_lt h)
          ∙ omega arith)

pub bits-fields : (n m a b : ℕ) → b < 2 ^ m → bits (n + m) (a * 2 ^ m + b) ≡ bits n a ++ bits m b
unfolding bits
bits-fields zero m a b h =
    ap (λ (k : ℕ). bits k (a * 2 ^ m + b)) {x = 0 + m} {y = m} (omega arith) ∙ bits-low m a b
bits-fields (suc n) m a b h =
    let f : (a * 2 ^ m + b) / 2 ^ (n + m) ≡ a / 2 ^ n = shifted n m a b h in
    ap (λ (k : ℕ). bits k (a * 2 ^ m + b)) {x = suc n + m} {y = suc (n + m)} (omega arith)
    ∙ rw f (ap (◌∷◌ (a / 2 ^ n % 2 == 1)) (bits-fields n m a b h))

-- The bits of some bytes.
unfoldable pub byte_bits : List ℕ → List Bool
byte_bits [] = []
byte_bits (b ∷ bs) = bits 8 b ++ byte_bits bs

pub byte_bits-append : (xs ys : List ℕ) → byte_bits (xs ++ ys) ≡ byte_bits xs ++ byte_bits ys
unfolding byte_bits
byte_bits-append [] ys = refl
byte_bits-append (x ∷ xs) ys = rw append_assoc (ap (◌++◌ (bits 8 x)) (byte_bits-append xs ys))
