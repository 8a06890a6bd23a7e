-- ===== src/Buffers.antt =====
-- bnl/base/src/base/buffers.cpp: a queue of buffers that is read as one byte sequence. A buffer is
-- the list of its bytes. An iterator is a split of the list: what stands before it, and the rest.
pub mod View
pub mod Slice
pub mod Window
mod Examples
use bnl.Prelude.{
  ℕ, zero, suc, ◌+◌, ◌-◌, min, List, [], ◌∷◌, ◌++◌, length, take, drop, get_or, Bool, true, false,
  ltb, leb, ◌==◌, if◌then◌else◌, Option, none, some,
}

abbrev pub Buffer : Type 0
Buffer = List ℕ

abbrev pub Buffers : Type 0
Buffers = List Buffer

is_empty : Buffer → Bool
is_empty [] = true
is_empty (b ∷ bs) = false

-- The iterator to the first buffer that is not empty.
find_first_not_empty : Buffers → Buffers × Buffers
unfolding is_empty
find_first_not_empty [] = ([], [])
find_first_not_empty (b ∷ bs) =
    let later = find_first_not_empty bs in
    if is_empty b then (b ∷ later.0, later.1) else ([], b ∷ bs)

unfoldable pub size : Buffers → ℕ
size [] = 0
size (b ∷ bs) = length b + size bs

unfoldable pub empty : Buffers → Bool
unfolding size
empty bs = size bs == 0

-- `operator[]`; the index is below `size`, by an assertion.
pub get : Buffers → ℕ → ℕ
get [] index = 0
get (b ∷ bs) index = if leb (length b) index then get bs (index - length b) else get_or b index 0

unfoldable pub push : Buffers → Buffer → Buffers
push bs b = bs ++ (b ∷ [])

-- The first buffer and the others; there is one, by an assertion.
unfoldable pub pop : Buffers → Buffer × Buffers
pop [] = ([], [])
pop (b ∷ bs) = (b, bs)

unfoldable pub front : Buffers → Buffer
front [] = []
front (b ∷ bs) = b

-- Leading buffers that are empty are erased.
pub discard : Buffers → Buffers
unfolding is_empty
discard [] = []
discard (b ∷ bs) = if is_empty b then discard bs else b ∷ bs

-- The loop of `consume`. `size` is at most that of the sequence, by an assertion: where the buffers
-- end before that many bytes, which leaves the list in the source, the result here is the empty
-- list.
consume_loop : ℕ → Buffers → Buffers
consume_loop n [] = []
consume_loop n (b ∷ bs) =
    let to_consume = min n (length b) in
    if n == 0 then b ∷ bs else drop to_consume b ∷ consume_loop (n - to_consume) bs

pub consume : ℕ → Buffers → Buffers
unfolding consume_loop discard
consume n bs = discard (consume_loop n bs)

-- The loop of `slice` from `begin` on: the buffers that are passed, how many bytes are still wanted
-- behind them, and the buffers from `end` on.
walk : ℕ → Buffers → Buffers × ℕ × Buffers
walk left [] = ([], left, [])
walk left (b ∷ bs) =
    let later = walk (left - length b) bs in
    if ltb (length b) left then (b ∷ later.0, later.1, later.2) else ([], left, b ∷ bs)

flatten : Buffers → Buffer
flatten [] = []
flatten (b ∷ bs) = b ++ flatten bs

-- The buffers from `start` to `end` and `left` bytes of the one at `end`, in a new buffer.
concat : Buffers → ℕ → Buffers → Buffer
unfolding flatten
concat passed left [] = flatten passed
concat passed left (b ∷ bs) = flatten passed ++ take left b

-- The case `begin == end`: `left` bytes are sliced off the buffer there. There is one, by the
-- assertions on `begin` and `end`, which fail where no byte is in the sequence, for a size of 0
-- too; here the result is then empty.
slice_one : Buffers → ℕ → Buffers → Buffer × Buffers
unfolding discard
slice_one before left [] = ([], before)
slice_one before left (b ∷ bs) = (take left b, discard (before ++ (drop left b ∷ bs)))

slice_from : ℕ → Buffers → Buffers → Buffers × ℕ × Buffers → Buffer × Buffers
unfolding slice_one concat consume
slice_from n bs before ([], left, rest) = slice_one before left rest
slice_from n bs before (b ∷ passed, left, rest) =
    let result = concat (b ∷ passed) left rest in (result, consume (length result) bs)

pub slice : ℕ → Buffers → Buffer × Buffers
unfolding find_first_not_empty walk slice_from
slice n bs =
    let at_begin = find_first_not_empty bs in slice_from n bs at_begin.0 (walk n at_begin.1)
