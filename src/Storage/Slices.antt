-- ===== src/Storage/Slices.antt =====
-- The bytes of the buffers that `slice` and `concat` give.
use bnl.Prelude.{
  ℕ, zero, suc, ◌+◌, ◌-◌, ◌%◌, ◌^◌, ◌≤◌, ◌≡◌, refl, sym, ap, ◌∙◌, arith, true, Bool-cases, inl, inr,
  List, [], ◌∷◌, ◌++◌, length, length-take, take, drop, Option, none, some, leb, leb→le, le→leb,
  ◌==◌, ==→eq, ==_refl,
}
use bnl.Storage.{
  Block, absent, counted, Store, Buffer, null, inline, slice_of, set, contents, size, create,
  consume, retain, slice_part, slice_large, slice, sso_threshold, bytes_of, concat,
}

take-take : (n m : ℕ) (xs : List ℕ) → n ≤ m → take n (take m xs) ≡ take n xs
take-take zero m xs h = refl
take-take (suc n) zero xs h = absurd (omega arith)
take-take (suc n) (suc m) [] h = refl
take-take (suc n) (suc m) (x ∷ xs) h = ap (◌∷◌ x) (take-take n m xs (omega arith))

drop-take : (n m k : ℕ) (xs : List ℕ) → m ≡ n + k → drop n (take m xs) ≡ take k (drop n xs)
drop-take zero m k xs h = ap (λ (j : ℕ). take j xs) (omega arith)
drop-take (suc n) zero k xs h = absurd (omega arith)
drop-take (suc n) (suc m) zero [] h = refl
drop-take (suc n) (suc m) (suc k) [] h = refl
drop-take (suc n) (suc m) k (x ∷ xs) h = drop-take n m k xs (omega arith)

drop-drop : (n m : ℕ) (xs : List ℕ) → drop (m + n) xs ≡ drop n (drop m xs)
drop-drop n zero xs = ap (λ (j : ℕ). drop j xs) {x = 0 + n} {y = n} (omega arith)
drop-drop zero (suc m) [] = ap (λ (j : ℕ). drop j []) {x = suc m + 0} {y = suc m} (omega arith)
drop-drop (suc n) (suc m) [] =
    ap (λ (j : ℕ). drop j []) {x = suc m + suc n} {y = suc (m + suc n)} (omega arith)
drop-drop n (suc m) (x ∷ xs) =
    ap (λ (j : ℕ). drop j (x ∷ xs)) {x = suc m + n} {y = suc (m + n)} (omega arith)
    ∙ drop-drop n m xs

take-length : (xs : List ℕ) → take (length xs) xs ≡ xs
take-length [] = refl
take-length (x ∷ xs) = ap (◌∷◌ x) (take-length xs)

create-contents :
    (bytes : List ℕ) (s : Store) → contents (create bytes s).1 (create bytes s).0 ≡ bytes
unfolding contents create
create-contents bytes s = elim (Bool-cases (leb (length bytes) sso_threshold)) [
  | inl e ↦ rw e refl
  | inr e ↦
      let z : length bytes - 0 ≡ length bytes = omega arith in
      rw (e, ==_refl s.next, z) (take-length bytes)
]

-- The buffer that `concat` gives has the bytes of both.
contents-concat :
    (first second : Buffer) (s : Store)
    → contents (concat first second s).1 (concat first second s).0
      ≡ contents s first ++ contents s second
unfolding concat
contents-concat first second s = create-contents (contents s first ++ contents s second) s

drop-nil : (n : ℕ) → ◌≡◌ {A = List ℕ} [] (drop n [])
drop-nil zero = refl
drop-nil (suc n) = refl

consume-contents :
    (n : ℕ) (b : Buffer) (s : Store) → n ≤ size b → contents s (consume n b) ≡ drop n (contents s b)
unfolding contents consume size
consume-contents n null s l = drop-nil n
consume-contents n (inline bytes) s l = refl
consume-contents n (slice_of address first last) s l =
    rw (drop-drop n first (bytes_of (s.block address))) (
      sym (
        drop-take n (last - first) (last - (first + n)) (drop first (bytes_of (s.block address)))
          (omega arith)))

-- What `slice` gives: the next bytes in the new buffer, the others in the old one.
abbrev Gives : ℕ → Buffer → Store → Option (Buffer × Store) → Type 0
Gives n b s none = Unit {0}
Gives n b s (some (part, kept)) =
    (contents kept part ≡ take n (contents s b))
    × (contents kept (consume n b) ≡ drop n (contents s b))

-- A count that is set changes no bytes.
set-bytes :
    (address count more : ℕ) (bytes : List ℕ) (s : Store) (a : ℕ)
    → s.block address ≡ counted count bytes
    → bytes_of ((set address (counted more bytes) s).block a) ≡ bytes_of (s.block a)
set-bytes address count more bytes s a e = elim (Bool-cases (a == address)) [
  | inl x ↦ rw (x, ==→eq a address x, e) refl
  | inr x ↦ rw x refl
]

retain-Gives :
    (n address first last : ℕ) (s : Store) (block : Block)
    → n ≤ last - first
    → s.block address ≡ block
    → Gives n (slice_of address first last) s (elim (retain address block s) [
      | none ↦ none
      | some kept ↦ some (slice_of address first (first + n), kept)
    ])
unfolding retain contents consume size
retain-Gives n address first last s absent l e = tt
retain-Gives n address first last s (counted count bytes) l e =
    let m : first + n - first ≡ n = omega arith in
    (
      rw (set-bytes address count ((count + 1) % 2 ^ 32) bytes s address e, m)
          (sym (take-take n (last - first) (drop first (bytes_of (s.block address))) l)),
      rw (set-bytes address count ((count + 1) % 2 ^ 32) bytes s address e)
          (consume-contents n (slice_of address first last) s l),
    )

contents-null : (s : Store) → ◌≡◌ {A = List ℕ} [] (contents s null)
unfolding contents
contents-null s = refl

contents-inline : (bytes : List ℕ) (s : Store) → contents s (inline bytes) ≡ bytes
unfolding contents
contents-inline bytes s = refl

create_few :
    (bytes : List ℕ) (s : Store) → length bytes ≤ sso_threshold → create bytes s ≡ (inline bytes, s)
unfolding create
create_few bytes s h = rw (le→leb (length bytes) sso_threshold h) refl

slice_part-Gives : (n : ℕ) (b : Buffer) (s : Store) → n ≤ size b → Gives n b s (slice_part n b s)
unfolding slice_part slice_large size
slice_part-Gives n b s l = elim (Bool-cases (n == 0)) [
  | inl e ↦ let z : n ≡ 0 = ==→eq n 0 e in rw e (nothing z, consume-contents n b s l)
  | inr e ↦ elim (Bool-cases (leb n sso_threshold)) [
    | inl f ↦ rw (e, f) (small f)
    | inr f ↦ rw (e, f) (large b l)
  ]
]
  where
    nothing : n ≡ 0 → contents s null ≡ take n (contents s b)
    nothing z = rw z (sym (contents-null s))

    small : leb n sso_threshold ≡ true → Gives n b s (some (create (take n (contents s b)) s))
    small f =
        let few : length (take n (contents s b)) ≤ sso_threshold =
          omega (arith, length-take n (contents s b), leb→le n sso_threshold f) in
        rw (create_few (take n (contents s b)) s few)
          (contents-inline (take n (contents s b)) s, consume-contents n b s l)

    large : (b : Buffer) → n ≤ size b → Gives n b s (slice_large n b s)
    large null l = tt
    large (inline bytes) l = tt
    large (slice_of address first last) l =
        retain-Gives n address first last s (s.block address) l refl

abbrev Sliced : ℕ → Buffer → Store → Option (Buffer × Buffer × Store) → Type 0
Sliced n b s none = Unit {0}
Sliced n b s (some (part, rest, kept)) =
    (contents kept part ≡ take n (contents s b)) × (contents kept rest ≡ drop n (contents s b))

-- The buffer that `slice` gives has the next bytes, and the buffer that is cut the ones behind
-- them. The buffer has that many bytes.
pub contents-slice :
    (n : ℕ) (b part rest : Buffer) (s kept : Store)
    → n ≤ size b
    → slice n b s ≡ some (part, rest, kept)
    → (contents kept part ≡ take n (contents s b)) × (contents kept rest ≡ drop n (contents s b))
unfolding slice
contents-slice n b part rest s kept l h =
    let w : Sliced n b s (slice n b s) = cut (slice_part n b s) (slice_part-Gives n b s l) in
    rw h at w
  where
    cut :
        (found : Option (Buffer × Store))
        → Gives n b s found
        → Sliced n b s
            (elim found [ none ↦ none | some (part, kept) ↦ some (part, consume n b, kept) ])
    cut none g = tt
    cut (some (part, kept)) g = g
