-- ===== src/Huffman/Decode.antt =====
-- The decoder on the bits of a coded string.
use bnl.Prelude.{
  ℕ, ◌+◌, ◌*◌, ◌/◌, ◌%◌, ◌^◌, ◌<◌, ◌≡◌, refl, sym, ap, ◌∙◌, arith, Bool, true, List, [], ◌∷◌, ◌++◌,
  append_assoc, length, length-append, All, IsByte, none, some, ◌==◌, Bool-cases, inl, inr, bit_and,
}
use bnl.Prelude.Bits.{bit_and-ones}
use bnl.Error.{ok}
use bnl.Huffman.{has_flag, symbols, counted, size_loop, decode_loop}
use bnl.Huffman.Bits.{bits, bits-fields, byte_bits}
use bnl.Huffman.Decoding.{node_at, symbol_flag}
use bnl.Huffman.Decoding.Entry.{Node}
use bnl.Huffman.Tree.{Child, leaf, inner, child_at}
use bnl.Huffman.Walk.{Walked, walk, read_byte, is_padding, Follows, node_at-Follows}

abbrev prepend : List ℕ → Walked → Walked
prepend front none = none
prepend front (some (bytes, state)) = some (front ++ bytes, state)

abbrev after : Walked → (ℕ → Walked) → Walked
after none f = none
after (some (bytes, state)) f = prepend bytes (f state)

prepend-nil : (w : Walked) → prepend [] w ≡ w
prepend-nil none = refl
prepend-nil (some (bytes, state)) = refl

read_byte-prepend :
    (byte : ℕ) (front : List ℕ) (w : Walked)
    → read_byte byte (prepend front w) ≡ after (read_byte byte (some (front, 0))) (λ s. w)
read_byte-prepend byte front none = elim (Bool-cases (byte == 256)) [
  | inl e ↦ rw e refl
  | inr e ↦ rw e refl
]
read_byte-prepend byte front (some (bytes, state)) = elim (Bool-cases (byte == 256)) [
  | inl e ↦ rw e refl
  | inr e ↦ rw e refl
]

read_byte-after :
    (byte : ℕ) (w : Walked) (f : ℕ → Walked)
    → read_byte byte (after w f) ≡ after (read_byte byte w) f
read_byte-after byte none f = refl
read_byte-after byte (some (bytes, state)) f = elim (Bool-cases (byte == 256)) [
  | inl e ↦ read_byte-prepend byte bytes (f state) ∙ rw e refl
  | inr e ↦ read_byte-prepend byte bytes (f state) ∙ rw e refl
]

walk-nil : (s : ℕ) → walk [] s ≡ some ([], s)
unfolding walk
walk-nil s = refl

abbrev step : Child → List Bool → Walked
step (leaf byte) rest = read_byte byte (walk rest 0)
step (inner next) rest = walk rest next

step-append :
    (c : Child) (xs ys : List Bool)
    → ((s : ℕ) → walk (xs ++ ys) s ≡ after (walk xs s) (walk ys))
    → step c (xs ++ ys) ≡ after (step c xs) (walk ys)
step-append (leaf byte) xs ys h =
    ap (read_byte byte) (h 0) ∙ read_byte-after byte (walk xs 0) (walk ys)
step-append (inner next) xs ys h = h next

walk-step : (b : Bool) (bs : List Bool) (s : ℕ) → walk (b ∷ bs) s ≡ step (child_at s b) bs
unfolding walk
walk-step b bs s = go (child_at s b)
  where
    go :
        (c : Child)
        → ◌≡◌ {A = Walked}
            (elim c [ leaf byte ↦ read_byte byte (walk bs 0) | inner next ↦ walk bs next ])
            (step c bs)
    go (leaf byte) = refl
    go (inner next) = refl

pub walk-append : (xs ys : List Bool) (s : ℕ) → walk (xs ++ ys) s ≡ after (walk xs s) (walk ys)
walk-append [] ys s =
    sym (prepend-nil (walk ys s)) ∙ ap (λ (w : Walked). after w (walk ys)) (sym (walk-nil s))
walk-append (b ∷ xs) ys s =
    walk-step b (xs ++ ys) s
    ∙ step-append (child_at s b) xs ys (walk-append xs ys)
    ∙ ap (λ (w : Walked). after w (walk ys)) (sym (walk-step b xs s))

-- A walk over two pieces that reads bytes reads some in each piece.
pub record Split (xs ys : List Bool) (s : ℕ) (out : List ℕ) (t : ℕ) : Type 0 where
  pub first : List ℕ
  pub between : ℕ
  pub second : List ℕ
  pub walks_first : walk xs s ≡ some (first, between)
  pub walks_second : walk ys between ≡ some (second, t)
  pub reads : out ≡ first ++ second

prepend_cases :
    (first : List ℕ) (w : Walked) (out : List ℕ) (t : ℕ)
    → prepend first w ≡ some (out, t)
    → (second : List ℕ) × (w ≡ some (second, t)) × (out ≡ first ++ second)
prepend_cases first none out t e = cc
prepend_cases first (some (second, u)) out t e = (second, cc, cc)

after_cases :
    (w : Walked) (f : ℕ → Walked) (out : List ℕ) (t : ℕ)
    → after w f ≡ some (out, t)
    → (first : List ℕ) × (between : ℕ) × (second : List ℕ) × (w ≡ some (first, between))
      × (f between ≡ some (second, t))
      × (out ≡ first ++ second)
after_cases none f out t e = cc
after_cases (some (first, between)) f out t e =
    let (second, p, q) = prepend_cases first (f between) out t e in
    (first, between, second, refl, p, q)

pub walk-Split :
    (xs ys : List Bool) (s : ℕ) (out : List ℕ) (t : ℕ)
    → walk (xs ++ ys) s ≡ some (out, t)
    → Split xs ys s out t
walk-Split xs ys s out t e =
    let (first, between, second, p, q, r) =
      after_cases (walk xs s) (walk ys) out t (sym (walk-append xs ys s) ∙ e) in
    record {
      first = first;
      between = between;
      second = second;
      walks_first = p;
      walks_second = q;
      reads = r;
    }

counted-symbols : (entry : Node) → counted entry ≡ length (symbols entry)
counted-symbols entry = elim (Bool-cases (has_flag symbol_flag entry)) [
  | inl e ↦ rw e refl
  | inr e ↦ rw e refl
]

halves : (b : ℕ) → IsByte b → bits 8 b ≡ bits 4 (b / 2 ^ 4) ++ bits 4 (bit_and b 0xf)
halves b h =
    ap (bits 8) {x = b} {y = b / 2 ^ 4 * 2 ^ 4 + b % 2 ^ 4} (omega arith)
    ∙ bits-fields 4 4 (b / 2 ^ 4) (b % 2 ^ 4) (omega arith)
    ∙ ap (λ (x : ℕ). bits 4 (b / 2 ^ 4) ++ bits 4 x) (sym (bit_and-ones 4 b))

counted-Follows :
    (entry : Node) (bytes : List ℕ) (state : ℕ)
    → Follows entry bytes state
    → counted entry ≡ length bytes
counted-Follows entry bytes state u = counted-symbols entry ∙ ap length u.writes

-- One round of both loops.
module _ (b : ℕ) (bs : List ℕ) (s m t : ℕ) (f g : List ℕ) (u : Follows (node_at s (b / 2 ^ 4)) f m)
    (v : Follows (node_at m (bit_and b 0xf)) g t) where
  size_loop-cons :
      (accept : Bool) (n : ℕ)
      → size_loop (b ∷ bs) s accept n ≡ size_loop bs t (is_padding t) (n + length f + length g)
  unfolding size_loop
  size_loop-cons accept n =
      let c = counted-Follows (node_at s (b / 2 ^ 4)) f m u in
      let d = counted-Follows (node_at m (bit_and b 0xf)) g t v in
      rw (u.goes_on, u.goes_to, v.goes_on, v.goes_to, v.accepts)
        (ap (λ (k : ℕ). size_loop bs t (is_padding t) k) (omega (arith, c, d)))

  decode_loop-cons : decode_loop (b ∷ bs) s ≡ f ++ (g ++ decode_loop bs t)
  unfolding decode_loop
  decode_loop-cons = rw (u.goes_to, v.goes_to, u.writes, v.writes) refl

walk_nothing :
    (bs : List ℕ) (s t : ℕ) (out : List ℕ) → bs ≡ [] → walk (byte_bits bs) s ≡ some (out, t) → s ≡ t
unfolding byte_bits walk
walk_nothing [] s t out z e = cc
walk_nothing (b ∷ bs) s t out z e = cc

-- Where the bits of some bytes are walked to a state in which a string may end, both loops of the
-- decoder read what the walk reads.
pub loops-walk :
    (bs : List ℕ) (s : ℕ) (accept : Bool) (n : ℕ) (out : List ℕ) (t : ℕ)
    → All IsByte bs
    → s < 256
    → walk (byte_bits bs) s ≡ some (out, t)
    → is_padding t ≡ true
    → (bs ≡ [] → accept ≡ true)
    → (size_loop bs s accept n ≡ ok (n + length out)) × (decode_loop bs s ≡ out)
unfolding size_loop decode_loop byte_bits walk
loops-walk [] s accept n out t h l e p a =
    let z : [] ≡ out = cc in (rw (a refl, ← z) (ap ok (omega arith)), z)
loops-walk (b ∷ bs) s accept n out t h l e p a =
    let x = walk-Split (bits 8 b) (byte_bits bs) s out t e in
    let y =
      walk-Split (bits 4 (b / 2 ^ 4)) (bits 4 (bit_and b 0xf)) s x.first x.between
        (ap (λ (w : List Bool). walk w s) (sym (halves b h.0)) ∙ x.walks_first) in
    let u = node_at-Follows s (b / 2 ^ 4) y.first y.between l (omega (arith, h.0)) y.walks_first in
    let v =
      node_at-Follows y.between (bit_and b 0xf) y.second x.between u.bounded
        (omega (arith, bit_and-ones 4 b)) y.walks_second in
    let (c, d) =
      loops-walk bs x.between (is_padding x.between) (n + length y.first + length y.second) x.second
        t h.1 v.bounded x.walks_second p
        (λ z. ap is_padding (walk_nothing bs x.between t x.second z x.walks_second) ∙ p) in
    let out_is : out ≡ y.first ++ (y.second ++ x.second) =
      x.reads
      ∙ ap (λ (w : List ℕ). w ++ x.second) y.reads
      ∙ append_assoc y.first y.second x.second in
    (
      size_loop-cons b bs s y.between x.between y.first y.second u v accept n
          ∙ c
          ∙ ap ok (
              omega (
                arith,
                ap length out_is,
                length-append y.first (y.second ++ x.second),
                length-append y.second x.second,
              )),
      decode_loop-cons b bs s y.between x.between y.first y.second u v
          ∙ ap (λ (w : List ℕ). y.first ++ (y.second ++ w)) d
          ∙ sym out_is,
    )
