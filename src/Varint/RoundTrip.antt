-- ===== src/Varint/RoundTrip.antt =====
-- `decode` after `encode`.
use bnl.Prelude.{
  ℕ, ◌+◌, ◌*◌, ◌/◌, ◌%◌, ◌^◌, ◌<◌, ◌≡◌, refl, sym, arith, List, [], ◌∷◌, ◌++◌, length, IsByte, All,
  length-append, inl, inr, ap, ◌∙◌, append_assoc, All-append, All-left, All-right, same_split, ◌-◌,
  append-nil,
}
use bnl.Error.{Result, ok, err, incomplete}
use bnl.Varint.{decode, encode}
use bnl.Varint.Bytes.{big_endian, tag, value}
use bnl.Varint.Encode.{
  Sized, one, two, four, eight, encoded_size-Sized, encode-big_endian, encode_cases,
}
use bnl.Varint.Decode.{
  decode_1, decode_2, decode_4, decode_8, decode-Decoding, short, full, Decoding, announced,
}
use mathlib.Core.Path.{subst}
use native.Mathlib.Nat.{one-le-pow}

decode_tagged :
    (v n : ℕ) (rest : List ℕ) → Sized v n → decode (big_endian n (tag n + v) ++ rest) ≡ (ok v, rest)
decode_tagged v n rest (one e h) = rw e (decode_1 _ rest (omega arith) ∙ ground arith)
decode_tagged v n rest (two e l h) =
    rw e (decode_2 _ _ rest (omega arith) (omega arith) (omega arith) ∙ ground arith)
decode_tagged v n rest (four e l h) =
    rw e (decode_4 _ _ _ _ rest (omega arith) (omega arith) ∙ ground arith)
decode_tagged v n rest (eight e l h) =
    rw e (decode_8 _ _ _ _ _ _ _ _ rest (omega arith) (omega arith) ∙ ground arith)

-- `decode` reads back the number that `encode` wrote, and leaves whatever follows it.
pub decode-encode :
    (v : ℕ) (bs rest : List ℕ) → encode v ≡ ok bs → decode (bs ++ rest) ≡ (ok v, rest)
decode-encode v bs rest e = elim (encode_cases v) [
  | inl (cs, d, s, b) ↦
      let z = encoded_size-Sized v (length cs) s in
      let f : bs ≡ big_endian (length cs) (tag (length cs) + v) =
        cc (encode-big_endian v (length cs) s) in
      rw f (decode_tagged v (length cs) rest z)
  | inr (d, s, h) ↦ cc
]

announced-pos : (s : List ℕ) → 0 < announced s
announced-pos [] = omega arith
announced-pos (b ∷ s) = one-le-pow (b / 64) 2 (omega arith)

pub announced-append : (s more : List ℕ) → 0 < length s → announced (s ++ more) ≡ announced s
announced-append [] more h = absurd (omega arith)
announced-append (b ∷ s) more h = refl

-- `decode` does not look past the number: bytes added behind the input join the rest.
pub decode-append :
    (s more : List ℕ) (v : ℕ) (rest : List ℕ)
    → All IsByte s
    → All IsByte more
    → decode s ≡ (ok v, rest)
    → decode (s ++ more) ≡ (ok v, rest ++ more)
decode-append s more v rest h k e = elim (decode-Decoding s h) [
  | short l d ↦ cc
  | full bs r sp n d ↦
      longer bs r sp n d (decode-Decoding (s ++ more) (All-append IsByte s more h k))
]
  where
    longer :
        (bs r : List ℕ)
        → s ≡ bs ++ r
        → length bs ≡ announced s
        → decode s ≡ (ok (value bs % 2 ^ (8 * length bs - 2)), r)
        → Decoding (s ++ more)
        → decode (s ++ more) ≡ (ok v, rest ++ more)
    longer bs r sp n d (short l f) = absurd (
        omega (
          arith,
          length-append s more,
          announced-append s more
              (omega (arith, announced-pos s, ap length sp, length-append bs r)),
          ap length sp,
          length-append bs r,
        ))
    longer bs r sp n d (full cs q sq m f) =
        let t : bs ++ (r ++ more) ≡ cs ++ q = rw (← append_assoc) (rw (← sp) sq) in
        let (same, tail) = same_split bs cs (r ++ more) q t (
          rw
            (
              m,
              announced-append s more
                  (omega (arith, announced-pos s, ap length sp, length-append bs r)),
            )
            n) in
        f ∙ rw (← same, ← tail) (ap (λ (z : Result ℕ × List ℕ). (z.0, z.1 ++ more)) (sym d ∙ e))

-- On a proper prefix of what `encode` wrote, `decode` asks for more bytes and takes none.
pub decode_truncated :
    (v x : ℕ) (front back : List ℕ)
    → encode v ≡ ok (front ++ x ∷ back)
    → decode front ≡ (err incomplete, front)
decode_truncated v x front back e =
    elim (decode-Decoding front (All-left IsByte front (x ∷ back) bytes)) [
      | short l d ↦ d
      | full bs r sp n d ↦
          let f =
            decode-append front (x ∷ back) _ r (All-left IsByte front _ bytes)
              (All-right IsByte front _ bytes) d in
          let g : decode (front ++ x ∷ back) ≡ (ok v, []) =
            rw append-nil at (decode-encode v _ [] e) in
          absurd (
            omega (
              arith,
              ap (λ (z : Result ℕ × List ℕ). length z.1) (sym f ∙ g),
              length-append r (x ∷ back),
            ))
    ]
  where
    bytes : All IsByte (front ++ x ∷ back)
    bytes = elim (encode_cases v) [
      | inl (cs, d, s, b) ↦ subst (All IsByte) (cc) b
      | inr (d, s, h) ↦ cc
    ]
