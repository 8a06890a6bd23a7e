-- ===== src/Buffers/View.antt =====
-- The byte sequence that the buffers stand for, and what each operation does to it.
use bnl.Prelude.{
  ℕ, zero, suc, ◌-◌, ◌≤◌, ◌<◌, ◌≡◌, refl, sym, arith, min, List, [], ◌∷◌, ◌++◌, append-nil,
  append_assoc, length, length-append, drop, get_or, ap, ◌∙◌, drop-nil,
}
use native.Mathlib.Decide.{dec_le}
use bnl.Buffers.{Buffer, Buffers, size, get, push, pop, discard, consume_loop, consume, flatten}

-- All bytes, in order.
unfoldable pub view : Buffers → List ℕ
unfolding flatten
view bs = flatten bs

pub view-append : (xs ys : Buffers) → view (xs ++ ys) ≡ view xs ++ view ys
unfolding view
view-append [] ys = refl
view-append (x ∷ xs) ys = rw append_assoc (ap (◌++◌ x) (view-append xs ys))

pub size-view : (bs : Buffers) → size bs ≡ length (view bs)
unfolding size view
size-view [] = refl
size-view (b ∷ bs) = omega (arith, length-append b (flatten bs), size-view bs)

-- `push` appends the bytes of the buffer.
pub view-push : (bs : Buffers) (b : Buffer) → view (push bs b) ≡ view bs ++ b
unfolding push view
view-push bs b = view-append bs (b ∷ []) ∙ ap (◌++◌ (flatten bs)) (append-nil b)

pub view-pop : (bs : Buffers) → (pop bs).0 ++ view (pop bs).1 ≡ view bs
unfolding pop view
view-pop [] = refl
view-pop (b ∷ bs) = refl

pub view-discard : (bs : Buffers) → view (discard bs) ≡ view bs
unfolding discard view
view-discard [] = refl
view-discard ([] ∷ bs) = view-discard bs
view-discard ((x ∷ b) ∷ bs) = refl

pub drop-append_le :
    {A : Type 0} (n : ℕ) (xs ys : List A) → n ≤ length xs → drop n (xs ++ ys) ≡ drop n xs ++ ys
drop-append_le zero xs ys h = refl
drop-append_le (suc n) [] ys h = absurd (omega arith)
drop-append_le (suc n) (x ∷ xs) ys h = drop-append_le n xs ys (omega arith)

drop-append_ge :
    {A : Type 0} (n : ℕ) (xs ys : List A)
    → length xs ≤ n
    → drop n (xs ++ ys) ≡ drop (n - length xs) ys
drop-append_ge n [] ys h = ap (λ (k : ℕ). drop k ys) (omega arith)
drop-append_ge zero (x ∷ xs) ys h = absurd (omega arith)
drop-append_ge (suc n) (x ∷ xs) ys h =
    drop-append_ge n xs ys (omega arith) ∙ ap (λ (k : ℕ). drop k ys) (omega arith)

drop-nothing : {A : Type 0} (xs : List A) (n : ℕ) → n ≡ 0 → drop n xs ≡ xs
drop-nothing xs n e = ap (λ (k : ℕ). drop k xs) e

-- The bytes that one round of `consume` takes off a buffer, and those left for the later ones.
drop_split :
    (n : ℕ) (b ys : List ℕ)
    → drop (min n (length b)) b ++ drop (n - min n (length b)) ys ≡ drop n (b ++ ys)
drop_split n b ys = elim (dec_le n (length b)) [
  | yes h ↦
      let m : min n (length b) ≡ n = omega arith in
      let z : n - n ≡ 0 = omega arith in rw (m, z) (sym (drop-append_le n b ys h))
  | no h ↦
      let m : min n (length b) ≡ length b = omega arith in
      rw (m, drop-append_ge n b ys (omega arith))
        (ap (λ (t : List ℕ). t ++ drop (n - length b) ys) (drop_all b))
]
  where
    drop_all : (xs : List ℕ) → drop (length xs) xs ≡ []
    drop_all [] = refl
    drop_all (x ∷ xs) = drop_all xs

consume_loop-suc :
    (n : ℕ) (b : Buffer) (bs : Buffers)
    → consume_loop (suc n) (b ∷ bs)
      ≡ drop (min (suc n) (length b)) b ∷ consume_loop (suc n - min (suc n) (length b)) bs
unfolding consume_loop
consume_loop-suc n b bs = ground arith

view-consume_loop :
    (n : ℕ) (bs : Buffers) → n ≤ size bs → view (consume_loop n bs) ≡ drop n (view bs)
unfolding consume_loop view size
view-consume_loop n [] h = sym (drop-nil n)
view-consume_loop zero (b ∷ bs) h = refl
view-consume_loop (suc n) (b ∷ bs) h =
    ap flatten (consume_loop-suc n b bs)
    ∙ ap (◌++◌ (drop (min (suc n) (length b)) b))
        (view-consume_loop (suc n - min (suc n) (length b)) bs (omega arith))
    ∙ drop_split (suc n) b (view bs)

-- Up to the size of the sequence, which an assertion checks, `consume` drops that many bytes of it,
-- across any number of buffers.
pub view-consume : (n : ℕ) (bs : Buffers) → n ≤ size bs → view (consume n bs) ≡ drop n (view bs)
unfolding consume
view-consume n bs h = view-discard (consume_loop n bs) ∙ view-consume_loop n bs h

get_or-append_lt : (xs ys : List ℕ) (i : ℕ) → i < length xs → get_or (xs ++ ys) i 0 ≡ get_or xs i 0
get_or-append_lt [] ys i h = absurd (omega arith)
get_or-append_lt (x ∷ xs) ys zero h = refl
get_or-append_lt (x ∷ xs) ys (suc i) h = get_or-append_lt xs ys i (omega arith)

get_or-append_ge :
    (xs ys : List ℕ) (i : ℕ) → length xs ≤ i → get_or (xs ++ ys) i 0 ≡ get_or ys (i - length xs) 0
get_or-append_ge [] ys i h = ap (λ (k : ℕ). get_or ys k 0) (omega arith)
get_or-append_ge (x ∷ xs) ys zero h = absurd (omega arith)
get_or-append_ge (x ∷ xs) ys (suc i) h =
    get_or-append_ge xs ys i (omega arith) ∙ ap (λ (k : ℕ). get_or ys k 0) (omega arith)

-- `operator[]` reads the sequence at that index.
pub get-view : (bs : Buffers) (i : ℕ) → get bs i ≡ get_or (view bs) i 0
unfolding get view
get-view [] i = refl
get-view (b ∷ bs) i = elim (dec_le (length b) i) [
  | yes h ↦ ground (arith, get_or-append_ge b (flatten bs) i h, get-view bs (i - length b))
  | no h ↦ ground (arith, get_or-append_lt b (flatten bs) i (omega arith))
]
