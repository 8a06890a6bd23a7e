-- ===== src/Prelude/Bits.antt =====
-- Shifts and masks as arithmetic: `|` of disjoint fields is a sum, `&` with k ones a remainder.
use Prim.Native.Nat.{
  ℕ, zero, suc, ◌+◌, ◌-◌, ◌*◌, ◌/◌, ◌%◌, ◌^◌, ◌≤◌, ◌<◌, min, max, bit_and, bit_or, digits,
  bit_and-bitwise, bit_or-bitwise,
}
use mathlib.Core.Path.{◌≡◌, refl, ap}
use native.Mathlib.Omega.{arith}
use native.Mathlib.Nat.{pow-suc, one-le-pow, div-add-mod}
use native.Mathlib.Decide.{ℕ_discrete}
use mathlib.Core.Bool.{Bool, true, false}
use mathlib.Core.Logic.{ite}

module _ (z : ℕ → ℕ) (f : ℕ → ℕ → ℕ) where
  -- Beyond the first operand the fuel of the digit recursion is idle.
  digits_enough : (n m a b : ℕ) → a ≤ n → a ≤ m → digits z f n a b ≡ digits z f m a b
  digits_enough zero zero a b p q = refl
  digits_enough zero (suc m) zero b p q = refl
  digits_enough zero (suc m) (suc a) b p q = absurd (omega arith)
  digits_enough (suc n) zero zero b p q = refl
  digits_enough (suc n) zero (suc a) b p q = absurd (omega arith)
  digits_enough (suc n) (suc m) zero b p q = refl
  digits_enough (suc n) (suc m) (suc a) b p q =
      rw (digits_enough n m (suc a / 2) (b / 2) (omega arith) (omega arith))

  lowest_digit :
      (a b : ℕ)
      → digits z f (suc a) (suc a) b
        ≡ digits z f (suc a / 2) (suc a / 2) (b / 2) * 2 + f (suc a % 2) (b % 2)
  lowest_digit a b =
      omega (arith, digits_enough a (suc a / 2) (suc a / 2) (b / 2) (omega arith) (omega arith))

or_halves : (a b : ℕ) → bit_or a b ≡ bit_or (a / 2) (b / 2) * 2 + max (a % 2) (b % 2)
or_halves zero b = simp bit_or-bitwise (omega arith)
or_halves (suc a) b = simp bit_or-bitwise (lowest_digit (λ y. y) max a b)

and_halves : (a b : ℕ) → bit_and a b ≡ bit_and (a / 2) (b / 2) * 2 + min (a % 2) (b % 2)
and_halves zero b = simp bit_and-bitwise (omega arith)
and_halves (suc a) b = simp bit_and-bitwise (lowest_digit (λ y. 0) min a b)

or_zero_below : (n a : ℕ) → a ≤ n → bit_or a 0 ≡ a
or_zero_below n zero h = refl
or_zero_below zero (suc a) h = absurd (omega arith)
or_zero_below (suc n) (suc a) h =
    omega (arith, or_halves (suc a) 0, or_zero_below n (suc a / 2) (omega arith))

pub bit_or-zero : (a : ℕ) → bit_or a 0 ≡ a
bit_or-zero a = or_zero_below a a (omega arith)

and_zero_below : (n a : ℕ) → a ≤ n → bit_and a 0 ≡ 0
and_zero_below n zero h = refl
and_zero_below zero (suc a) h = absurd (omega arith)
and_zero_below (suc n) (suc a) h =
    omega (arith, and_halves (suc a) 0, and_zero_below n (suc a / 2) (omega arith))

pub bit_and-zero : (a : ℕ) → bit_and a 0 ≡ 0
bit_and-zero a = and_zero_below a a (omega arith)

double_pow : (q k : ℕ) → q * 2 ^ suc k ≡ 2 * (q * 2 ^ k)
double_pow q k = omega (arith, ap (λ (t : ℕ). q * t) (pow-suc 2 k))

-- `(q << k) | r` for a field `r` of k bits.
pub bit_or-fields : (k q r : ℕ) → r < 2 ^ k → bit_or (q * 2 ^ k) r ≡ q * 2 ^ k + r
bit_or-fields zero q r h = ground (arith, bit_or-zero q)
bit_or-fields (suc k) q r h =
    ground
      (arith, or_halves (q * 2 ^ suc k) r, double_pow q k, bit_or-fields k q (r / 2) (omega arith))

pub bit_and-fields : (k q r : ℕ) → r < 2 ^ k → bit_and (q * 2 ^ k + r) (2 ^ k - 1) ≡ r
bit_and-fields zero q r h = rw bit_and-zero (omega arith)
bit_and-fields (suc k) q r h = ground (
  arith,
  and_halves (q * 2 ^ suc k + r) (2 ^ suc k - 1),
  double_pow q k,
  pow-suc 2 k,
  bit_and-fields k q (r / 2) (omega arith),
)

-- `a & (2^k - 1)`.
pub bit_and-ones : (k a : ℕ) → bit_and a (2 ^ k - 1) ≡ a % 2 ^ k
bit_and-ones k a = ground (arith, one-le-pow k 2, bit_and-fields k (a / 2 ^ k) (a % 2 ^ k))

-- `x | y` where `x` ends in k zeros and `y` has k bits.
pub bit_or-eq-add : (k x y : ℕ) → x % 2 ^ k ≡ 0 → y < 2 ^ k → bit_or x y ≡ x + y
bit_or-eq-add k x y h lt =
    ground (arith, one-le-pow k 2, div-add-mod x (2 ^ k), bit_or-fields k (x / 2 ^ k) y)

module _ (f g : ℕ → ℕ) where
  same_below : ℕ → Bool
  unfolding ℕ_discrete
  same_below zero = true
  same_below (suc n) = ite (ℕ_discrete (f n) (g n)) (same_below n) false

  -- Two functions that agree on a table agree below its size.
  same_below→eq : (n : ℕ) → same_below n ≡ true → (i : ℕ) → i < n → f i ≡ g i
  unfolding same_below
  same_below→eq zero e i h = absurd (omega arith)
  same_below→eq (suc n) e i h = ground (arith, same_below→eq n (ground arith) i)

pub bit_or_0x40 : (b : ℕ) → b < 64 → bit_or b 0x40 ≡ b + 0x40
unfolding same_below
bit_or_0x40 = same_below→eq _ _ 64 refl

pub bit_or_0x80 : (b : ℕ) → b < 128 → bit_or b 0x80 ≡ b + 0x80
unfolding same_below
bit_or_0x80 = same_below→eq _ _ 128 refl

pub bit_or_0xc0 : (b : ℕ) → b < 64 → bit_or b 0xc0 ≡ b + 0xc0
unfolding same_below
bit_or_0xc0 = same_below→eq _ _ 64 refl

pub bit_and_0x80 : (b : ℕ) → b < 256 → bit_and b 0x80 ≡ b / 128 * 128
unfolding same_below
bit_and_0x80 = same_below→eq _ _ 256 refl

-- Tables over a prefix of at most 8 bits and a byte, at the index `p * 256 + b`.
low_bits_set :
    (i : ℕ)
    → i < 2304
    → bit_or (i % 256) (2 ^ (i / 256) - 1)
      ≡ i % 256 / 2 ^ (i / 256) * 2 ^ (i / 256) + (2 ^ (i / 256) - 1)
unfolding same_below
low_bits_set = same_below→eq _ _ 2304 refl

low_bits_cleared :
    (i : ℕ)
    → i < 2304
    → bit_and (i % 256) (255 - (2 ^ (i / 256) - 1)) ≡ i % 256 / 2 ^ (i / 256) * 2 ^ (i / 256)
unfolding same_below
low_bits_cleared = same_below→eq _ _ 2304 refl

-- `b | ones` and `b & ~ones` for the ones of a prefix of `p` bits.
pub bit_or-prefix :
    (p b : ℕ) → p ≤ 8 → b < 256 → bit_or b (2 ^ p - 1) ≡ b / 2 ^ p * 2 ^ p + (2 ^ p - 1)
bit_or-prefix p b hp hb =
    let q : (p * 256 + b) / 256 ≡ p = omega arith in
    let r : (p * 256 + b) % 256 ≡ b = omega arith in
    rw (q, r) at (low_bits_set (p * 256 + b) (omega arith))

pub bit_and-prefix : (p b : ℕ) → p ≤ 8 → b < 256 → bit_and b (255 - (2 ^ p - 1)) ≡ b / 2 ^ p * 2 ^ p
bit_and-prefix p b hp hb =
    let q : (p * 256 + b) / 256 ≡ p = omega arith in
    let r : (p * 256 + b) % 256 ≡ b = omega arith in
    rw (q, r) at (low_bits_cleared (p * 256 + b) (omega arith))

ones_table : (i : ℕ) → i < 9 → (2 ^ i - 1) % 2 ^ 8 ≡ 2 ^ i - 1
unfolding same_below
ones_table = same_below→eq _ _ 9 refl

-- `static_cast<uint8_t>((1U << p) - 1)` keeps all its ones.
pub ones_fit : (p : ℕ) → p ≤ 8 → (2 ^ p - 1) % 2 ^ 8 ≡ 2 ^ p - 1
ones_fit p h = ones_table p (omega arith)
