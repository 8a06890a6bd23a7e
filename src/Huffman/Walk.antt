-- ===== src/Huffman/Walk.antt =====
-- The decoder one bit at a time, and both tables against the tree of the code.
use bnl.Prelude.Sweep.{same, same→eq, below, below-at, and-left, and-right}
use bnl.Prelude.{
  ℕ, ◌<◌, ◌≡◌, refl, ap, ◌∙◌, sym, Bool, true, false, ◌&&◌, ◌||◌, not, List, [], ◌∷◌, ltb, ltb→lt,
  ==→eq, Option, none, some, ◌==◌, if◌then◌else◌, replicate,
}
use bnl.Huffman.Bits.{bits}
use bnl.Huffman.{has_flag, symbols}
use bnl.Huffman.Encoding.{symbol_at}
use bnl.Huffman.Encoding.Entry.{symbol_code, symbol_bits}
use bnl.Huffman.Decoding.{node_at, accepted_flag, failed_flag}
use bnl.Huffman.Decoding.Entry.{Node, node_state}
use bnl.Huffman.Tree.{leaf, inner, child_at}

-- The bytes read on a walk, and where it ends; none where it meets the end of the string.
abbrev pub Walked : Type 0
Walked = Option (List ℕ × ℕ)

abbrev pub read_byte : ℕ → Walked → Walked
read_byte byte none = none
read_byte byte (some (bytes, state)) = if byte == 256 then none else some (byte ∷ bytes, state)

unfoldable pub walk : List Bool → ℕ → Walked
unfolding child_at
walk [] state = some ([], state)
walk (b ∷ bs) state = elim (child_at state b) [
  | leaf byte ↦ read_byte byte (walk bs 0)
  | inner next ↦ walk bs next
]

-- The states on the way to the end of the string, where a string may be padded.
abbrev pub is_padding : ℕ → Bool
is_padding state =
    (state == 0)
    || ((state == 22)
        || ((state == 40)
            || ((state == 56)
                || ((state == 64) || ((state == 68) || ((state == 72) || (state == 74)))))))

abbrev pub same_bool : Bool → Bool → Bool
same_bool true b = b
same_bool false b = not b

-- An entry of the decoding table against the walk over the four bits that it is for.
abbrev pub agrees : Node → Walked → Bool
agrees entry none = has_flag failed_flag entry
agrees entry (some (bytes, state)) =
    not (has_flag failed_flag entry)
    && ((node_state entry == state)
        && (same (symbols entry) bytes
            && (same_bool (has_flag accepted_flag entry) (is_padding state) && ltb state 256)))

abbrev half_agrees : ℕ → ℕ → Bool
half_agrees state half = agrees (node_at state half) (walk (bits 4 half) state)

all_rows : below 256 (λ state. below 16 (half_agrees state)) ≡ true
unfolding node_at walk bits child_at
all_rows = refl

-- What an entry says where the walk meets no end of the string.
pub record Follows (entry : Node) (bytes : List ℕ) (state : ℕ) : Type 0 where
  pub goes_on : has_flag failed_flag entry ≡ false
  pub goes_to : node_state entry ≡ state
  pub writes : symbols entry ≡ bytes
  pub accepts : has_flag accepted_flag entry ≡ is_padding state
  pub bounded : state < 256

same_bool→eq : (a b : Bool) → same_bool a b ≡ true → a ≡ b
same_bool→eq true b h = sym h
same_bool→eq false true h = cc
same_bool→eq false false h = refl

not-true : (b : Bool) → not b ≡ true → b ≡ false
not-true true h = cc
not-true false h = refl

agrees-Follows :
    (entry : Node) (bytes : List ℕ) (state : ℕ)
    → agrees entry (some (bytes, state)) ≡ true
    → Follows entry bytes state
agrees-Follows entry bytes state h =
    let h1 = and-right (not (has_flag failed_flag entry)) _ h in
    let h2 = and-right (node_state entry == state) _ h1 in
    let h3 = and-right (same (symbols entry) bytes) _ h2 in
    record {
      goes_on = not-true _ (and-left _ _ h);
      goes_to = ==→eq _ _ (and-left _ _ h1);
      writes = same→eq _ _ (and-left _ _ h2);
      accepts = same_bool→eq _ _ (and-left _ _ h3);
      bounded =
          ltb→lt state 256
            (and-right (same_bool (has_flag accepted_flag entry) (is_padding state)) _ h3);
    }

-- The decoding table agrees with the walk, for every state and every half of a byte.
pub node_at-Follows :
    (state half : ℕ) (bytes : List ℕ) (next : ℕ)
    → state < 256
    → half < 16
    → walk (bits 4 half) state ≡ some (bytes, next)
    → Follows (node_at state half) bytes next
node_at-Follows state half bytes next s h w = agrees-Follows (node_at state half) bytes next (
    ap (agrees (node_at state half)) (sym w)
    ∙ below-at 16 half (half_agrees state)
        (below-at 256 state (λ t. below 16 (half_agrees t)) all_rows s) h)

abbrev code_walks : ℕ → Bool
code_walks byte =
    elim (walk (bits (symbol_bits (symbol_at byte)) (symbol_code (symbol_at byte))) 0) [
      | none ↦ false
      | some (bytes, state) ↦ same bytes (byte ∷ []) && (state == 0)
    ]

all_codes : below 256 code_walks ≡ true
unfolding symbol_at walk bits child_at
all_codes = refl

walks_one :
    (w : Walked) (byte : ℕ)
    → ◌≡◌ {A = Bool}
        (elim w [ none ↦ false | some (bytes, state) ↦ same bytes (byte ∷ []) && (state == 0) ])
        true
    → w ≡ some (byte ∷ [], 0)
walks_one none byte h = cc
walks_one (some (bytes, state)) byte h =
    let e = same→eq bytes (byte ∷ []) (and-left _ _ h) in
    let f = ==→eq state 0 (and-right (same bytes (byte ∷ [])) _ h) in cc

-- The walk over the code of a byte reads it.
pub walk-code :
    (byte : ℕ)
    → byte < 256
    → walk (bits (symbol_bits (symbol_at byte)) (symbol_code (symbol_at byte))) 0
      ≡ some (byte ∷ [], 0)
walk-code byte h = walks_one _ byte (below-at 256 byte code_walks all_codes h)

abbrev padding_walks : ℕ → Bool
padding_walks k = elim (walk (replicate k true) 0) [
  | none ↦ false
  | some (bytes, state) ↦ same bytes [] && is_padding state
]

all_padding : below 8 padding_walks ≡ true
unfolding walk child_at
all_padding = refl

walks_none :
    (w : Walked)
    → ◌≡◌ {A = Bool}
        (elim w [ none ↦ false | some (bytes, state) ↦ same bytes [] && is_padding state ])
        true
    → (state : ℕ) × (w ≡ some ([], state)) × (is_padding state ≡ true)
walks_none none h = cc
walks_none (some (bytes, state)) h =
    let e = same→eq bytes [] (and-left _ _ h) in (state, cc, and-right (same bytes []) _ h)

-- The walk over the padding reads nothing.
pub walk-padding :
    (k : ℕ)
    → k < 8
    → (state : ℕ) × (walk (replicate k true) 0 ≡ some ([], state)) × (is_padding state ≡ true)
walk-padding k h = walks_none _ (below-at 8 k padding_walks all_padding h)
