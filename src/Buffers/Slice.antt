-- ===== src/Buffers/Slice.antt =====
-- `buffers::slice` on the byte sequence of the buffers.
use bnl.Prelude.{
  ℕ, zero, suc, ◌+◌, ◌-◌, ◌≤◌, ◌<◌, ◌≡◌, refl, sym, arith, List, [], ◌∷◌, ◌++◌, append-nil, length,
  length-append, length-take, take, drop, ap, ◌∙◌, drop-nil,
}
use bnl.Buffers.{
  Buffer, Buffers, find_first_not_empty, walk, flatten, concat, slice_one, slice_from, slice, size,
}
use bnl.Buffers.View.{view, view-append, view-discard, view-consume, size-view, drop-append_le}
use mathlib.Core.Path.{subst}
use native.Mathlib.Decide.{dec_lt}

-- The buffers before the first that is not empty hold nothing.
first_split :
    (bs : Buffers)
    → ((find_first_not_empty bs).0 ++ (find_first_not_empty bs).1 ≡ bs)
      × (view (find_first_not_empty bs).0 ≡ [])
unfolding find_first_not_empty view
first_split [] = (refl, refl)
first_split ([] ∷ bs) = let (e, z) = first_split bs in (ap (◌∷◌ []) e, z)
first_split ((x ∷ b) ∷ bs) = (refl, refl)

walk_split : (n : ℕ) (bs : Buffers) → (walk n bs).0 ++ (walk n bs).2 ≡ bs
unfolding walk
walk_split n [] = refl
walk_split n (b ∷ bs) = ground (arith, walk_split (n - length b) bs)

walk_count : (n : ℕ) (bs : Buffers) → length (view (walk n bs).0) + (walk n bs).1 ≡ n
unfolding walk view
walk_count n [] = omega arith
walk_count n (b ∷ bs) = elim (dec_lt (length b) n) [
  | yes h ↦
      ground
        (arith, walk_count (n - length b) bs, length-append b (flatten (walk (n - length b) bs).0))
  | no h ↦ ground arith
]

-- The buffer at `end` has the bytes that are still wanted.
walk_room :
    (n : ℕ) (bs : Buffers) (b : Buffer) (more : Buffers)
    → (walk n bs).2 ≡ b ∷ more
    → (walk n bs).1 ≤ length b
unfolding walk
walk_room n [] b more e = cc
walk_room n (c ∷ bs) b more e = ground (arith, walk_room (n - length c) bs b more)

take-append_ge :
    {A : Type 0} (xs ys : List A) (n : ℕ) → take (length xs + n) (xs ++ ys) ≡ xs ++ take n ys
take-append_ge [] ys n = ap (λ (k : ℕ). take k ys) (omega arith)
take-append_ge (x ∷ xs) ys n =
    ap (λ (k : ℕ). take k (x ∷ (xs ++ ys))) {x = length (x ∷ xs) + n} {y = suc (length xs + n)}
      (omega arith)
    ∙ ap (◌∷◌ x) (take-append_ge xs ys n)

take-append_le :
    {A : Type 0} (n : ℕ) (xs ys : List A) → n ≤ length xs → take n (xs ++ ys) ≡ take n xs
take-append_le zero xs ys h = refl
take-append_le (suc n) [] ys h = absurd (omega arith)
take-append_le (suc n) (x ∷ xs) ys h = ap (◌∷◌ x) (take-append_le n xs ys (omega arith))

take-nil : (n : ℕ) → ◌≡◌ {A = List ℕ} (take n []) []
take-nil zero = refl
take-nil (suc n) = refl

-- `concat` is a prefix of the sequence, as long as wanted.
concat_prefix :
    (passed rest : Buffers) (left : ℕ)
    → ((b : Buffer) (more : Buffers) → rest ≡ b ∷ more → left ≤ length b)
    → concat passed left rest ≡ take (length (view passed) + left) (view (passed ++ rest))
unfolding concat view
concat_prefix passed [] left room =
    rw (view-append passed [], take-append_ge (view passed) [] left, take-nil left)
      (sym (append-nil (view passed)))
concat_prefix passed (b ∷ more) left room =
    rw (view-append passed (b ∷ more), take-append_ge (view passed) (view (b ∷ more)) left)
      (ap (◌++◌ (view passed)) (sym (take-append_le left b (view more) (room b more refl))))

abbrev Sliced : ℕ → Buffers → Buffer × Buffers → Type 0
Sliced n bs r = (r.0 ≡ take n (view bs)) × (view r.1 ≡ drop n (view bs))

slice_one-Sliced :
    (before : Buffers) (n : ℕ) (rest : Buffers)
    → view before ≡ []
    → ((b : Buffer) (more : Buffers) → rest ≡ b ∷ more → n ≤ length b)
    → Sliced n (before ++ rest) (slice_one before n rest)
unfolding slice_one view
slice_one-Sliced before n [] z room =
    rw (view-append before [], z) (sym (take-nil n), sym (drop-nil n))
slice_one-Sliced before n (b ∷ more) z room =
    rw (view-append before (b ∷ more), z)
      (
        sym (take-append_le n b (view more) (room b more refl)),
        rw (view-discard, view-append before (drop n b ∷ more), z)
            (sym (drop-append_le n b (view more) (room b more refl))),
      )

view_empty : length (view []) ≡ 0
unfolding view
view_empty = refl

slice_from-Sliced :
    (n : ℕ) (bs before passed : Buffers) (left : ℕ) (rest : Buffers)
    → before ++ (passed ++ rest) ≡ bs
    → view before ≡ []
    → length (view passed) + left ≡ n
    → ((b : Buffer) (more : Buffers) → rest ≡ b ∷ more → left ≤ length b)
    → n ≤ length (view bs)
    → Sliced n bs (slice_from n bs before (passed, left, rest))
unfolding slice_from
slice_from-Sliced n bs before [] left rest e z c room h =
    let same : n ≡ left = omega (arith, view_empty) in
    rw (← e, same) (slice_one-Sliced before left rest z room)
slice_from-Sliced n bs before (p ∷ passed) left rest e z c room h =
    let bytes : view bs ≡ view ((p ∷ passed) ++ rest) = rw (← e, view-append before, z) refl in
    let result : concat (p ∷ passed) left rest ≡ take n (view bs) = rw bytes (
      subst (λ k. concat (p ∷ passed) left rest ≡ take k (view ((p ∷ passed) ++ rest))) c
        (concat_prefix (p ∷ passed) rest left room)) in
    let len : length (concat (p ∷ passed) left rest) ≡ n =
      omega (arith, ap length result, length-take n (view bs)) in
    (result, view-consume _ bs (omega (arith, size-view bs)) ∙ ap (λ (k : ℕ). drop k (view bs)) len)

-- Of a sequence that is not empty, and up to its size, `slice n` returns the first `n` bytes and
-- leaves the others.
pub slice-view :
    (n : ℕ) (bs : Buffers)
    → 0 < size bs
    → n ≤ size bs
    → ((slice n bs).0 ≡ take n (view bs)) × (view (slice n bs).1 ≡ drop n (view bs))
unfolding slice
slice-view n bs p h =
    let (e, z) = first_split bs in
    slice_from-Sliced n bs _ _ _ _ (rw (walk_split n (find_first_not_empty bs).1) e) z
      (walk_count n _) (walk_room n _) (omega (arith, size-view bs))
