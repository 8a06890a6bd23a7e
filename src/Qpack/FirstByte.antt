-- ===== src/Qpack/FirstByte.antt =====
-- The first bytes of the instructions, and their types.
use bnl.Prelude.{
  ℕ, ◌/◌, ◌<◌, ◌≡◌, refl, arith, Bool, true, false, not, ◌&&◌, ◌||◌, ◌⊎◌, inl, inr, List, ◌∷◌,
  Bool-cases, ◌++◌, length, ltb, ◌==◌, bit_and,
}
use bnl.Prelude.Sweep.{below, below-at, and-left, and-right, implies, implied}
use bnl.PrefixInt.RoundTrip.{encode-keeps_high}
use bnl.Huffman
use bnl.Literal
use bnl.Literal.{smaller_size}
use bnl.Qpack.Table.{InstructionType, header_value, header_only, missing, unknown, find_type}

-- The types of the first bytes that the encoder writes.
abbrev is_indexed : InstructionType → Bool
is_indexed header_value = true
is_indexed _ = false

abbrev is_reference : InstructionType → Bool
is_reference header_only = true
is_reference _ = false

abbrev is_literal : InstructionType → Bool
is_literal missing = true
is_literal _ = false

is_indexed→eq : (t : InstructionType) → is_indexed t ≡ true → t ≡ header_value
is_indexed→eq header_value h = refl
is_indexed→eq header_only h = cc
is_indexed→eq missing h = cc
is_indexed→eq unknown h = cc

is_reference→eq : (t : InstructionType) → is_reference t ≡ true → t ≡ header_only
is_reference→eq header_value h = cc
is_reference→eq header_only h = refl
is_reference→eq missing h = cc
is_reference→eq unknown h = cc

is_literal→eq : (t : InstructionType) → is_literal t ≡ true → t ≡ missing
is_literal→eq header_value h = cc
is_literal→eq header_only h = cc
is_literal→eq missing h = refl
is_literal→eq unknown h = cc

abbrev first_byte_lem : ℕ → Bool
first_byte_lem byte =
    implies (byte / 64 == 3) (is_indexed (find_type byte) && not (bit_and byte 0x40 == 0))
    && (implies (byte / 16 == 5) (is_reference (find_type byte) && not (bit_and byte 0x10 == 0))
        && implies ((byte / 8 == 4) || (byte / 8 == 5)) (is_literal (find_type byte)))

all_first_bytes : below 256 first_byte_lem ≡ true
unfolding find_type
all_first_bytes = refl

not-true : (b : Bool) → not b ≡ true → b ≡ false
not-true false h = refl
not-true true h = cc

eq→== : (a b : ℕ) → a ≡ b → (a == b) ≡ true
eq→== a b h = ground arith

pub indexed_byte :
    (byte : ℕ)
    → byte / 64 ≡ 3
    → (find_type byte ≡ header_value) × ((bit_and byte 0x40 == 0) ≡ false)
indexed_byte byte h =
    let a = below-at 256 byte first_byte_lem all_first_bytes (omega arith) in
    let b =
      implied (byte / 64 == 3) (is_indexed (find_type byte) && not (bit_and byte 0x40 == 0))
        (and-left _ _ a) (eq→== _ _ h) in
    (is_indexed→eq _ (and-left _ _ b), not-true _ (and-right (is_indexed (find_type byte)) _ b))

pub reference_byte :
    (byte : ℕ) → byte / 16 ≡ 5 → (find_type byte ≡ header_only) × ((bit_and byte 0x10 == 0) ≡ false)
reference_byte byte h =
    let a = below-at 256 byte first_byte_lem all_first_bytes (omega arith) in
    let c =
      and-right
        (implies (byte / 64 == 3) (is_indexed (find_type byte) && not (bit_and byte 0x40 == 0))) _
        a in
    let b =
      implied (byte / 16 == 5) (is_reference (find_type byte) && not (bit_and byte 0x10 == 0))
        (and-left _ _ c) (eq→== _ _ h) in
    (is_reference→eq _ (and-left _ _ b), not-true _ (and-right (is_reference (find_type byte)) _ b))

four_or_five : (n : ℕ) → (n ≡ 4) ⊎ (n ≡ 5) → ((n == 4) || (n == 5)) ≡ true
four_or_five n (inl e) = rw e refl
four_or_five n (inr e) = rw e refl

pub literal_byte : (byte : ℕ) → (byte / 8 ≡ 4) ⊎ (byte / 8 ≡ 5) → find_type byte ≡ missing
literal_byte byte h =
    let l : byte < 256 = elim h [ inl e ↦ omega arith | inr e ↦ omega arith ] in
    let a = below-at 256 byte first_byte_lem all_first_bytes l in
    let c =
      and-right
        (implies (byte / 64 == 3) (is_indexed (find_type byte) && not (bit_and byte 0x40 == 0))) _
        a in
    let d =
      and-right
        (implies (byte / 16 == 5) (is_reference (find_type byte) && not (bit_and byte 0x10 == 0))) _
        c in
    is_literal→eq _ (implied ((byte / 8 == 4) || (byte / 8 == 5)) _ d (four_or_five (byte / 8) h))

-- The first byte of a name.
pub name_head :
    (name : List ℕ)
    → (head : ℕ) × (more : List ℕ) × (Literal.encode 0x20 name 3 ≡ head ∷ more)
      × ((head / 8 ≡ 4) ⊎ (head / 8 ≡ 5))
unfolding Literal.encode
name_head name = elim (Bool-cases (ltb (smaller_size name) (length name))) [
  | inl x ↦
      let (head, more, e, q) =
        encode-keeps_high 3 0x28 (smaller_size name) (omega arith) (omega arith) in
      (head, more ++ Huffman.encode name, rw (x, e) refl, inr q)
  | inr x ↦
      let (head, more, e, q) =
        encode-keeps_high 3 0x20 (smaller_size name) (omega arith) (omega arith) in
      (head, more ++ name, rw (x, e) refl, inl q)
]
