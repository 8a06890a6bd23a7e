-- ===== src/Varint/Bytes.antt =====
-- The wire format in plain arithmetic: big-endian bytes whose top two bits tell their number.
use bnl.Prelude.{
  ℕ, zero, suc, ◌+◌, ◌*◌, ◌/◌, ◌%◌, ◌^◌, ◌≡◌, refl, arith, List, [], ◌∷◌, length, ltb,
  if◌then◌else◌, IsByte, All,
}

-- The `n` low bytes of `v`, the highest first.
abbrev pub big_endian : ℕ → ℕ → List ℕ
big_endian zero v = []
big_endian (suc n) v = (v / 256 ^ n % 256) ∷ big_endian n v

-- The number whose big-endian bytes they are.
abbrev pub value : List ℕ → ℕ
value [] = 0
value (b ∷ bs) = b * 256 ^ length bs + value bs

-- What the length bits add to the number of `n` bytes.
abbrev pub tag : ℕ → ℕ
tag n =
    if ltb n 2
    then 0
    else if ltb n 4
    then 0x40 * 2 ^ 8
    else if ltb n 8
    then 0x80 * 2 ^ 24
    else 0xc0 * 2 ^ 56

pub big_endian-IsByte : (n v : ℕ) → All IsByte (big_endian n v)
big_endian-IsByte zero v = tt
big_endian-IsByte (suc n) v = (omega arith, big_endian-IsByte n v)

pub length-big_endian : (n v : ℕ) → length (big_endian n v) ≡ n
length-big_endian zero v = refl
length-big_endian (suc n) v = omega (arith, length-big_endian n v)
