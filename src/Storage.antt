-- ===== src/Storage.antt =====
-- bnl/base/src/base/buffer.cpp: the storage behind a buffer. Up to 20 bytes stand in the buffer
-- itself, more of them in an allocated block with a reference count, of which buffers hold slices.
pub mod Counts
pub mod Reach
pub mod Slices
mod Examples
use bnl.Prelude.{
  ℕ, ◌+◌, ◌-◌, ◌%◌, ◌^◌, List, [], ◌∷◌, ◌++◌, length, take, drop, Option, none, some, leb, ◌==◌,
  if◌then◌else◌,
}

-- A block: its reference count, a uint32_t, and its bytes; or none, never allocated or deleted.
pub data Block : Type 0 where
  absent : Block
  counted : (count : ℕ) (bytes : List ℕ) → Block

-- The blocks by their addresses; the addresses from `next` on are free.
pub record Store : Type 0 where
  pub next : ℕ
  pub block : ℕ → Block

-- `begin_` is a null pointer, points into `sso_`, or into a block: the bytes from `begin_` to
-- `end_`.
pub data Buffer : Type 0 where
  null : Buffer
  inline : (bytes : List ℕ) → Buffer
  slice_of : (address first last : ℕ) → Buffer

abbrev pub sso_threshold : ℕ
sso_threshold = 20

abbrev pub set : ℕ → Block → Store → Store
set address b s = record s { block = λ a. if a == address then b else s.block a }

abbrev pub bytes_of : Block → List ℕ
bytes_of absent = []
bytes_of (counted count bytes) = bytes

-- The bytes from `data()` to `data() + size()`.
unfoldable pub contents : Store → Buffer → List ℕ
contents s null = []
contents s (inline bytes) = bytes
contents s (slice_of address first last) =
    take (last - first) (drop first (bytes_of (s.block address)))

unfoldable pub size : Buffer → ℕ
size null = 0
size (inline bytes) = length bytes
size (slice_of address first last) = last - first

-- `buffer(const uint8_t *, size_t)`.
unfoldable pub create : List ℕ → Store → Buffer × Store
create bytes s = if leb (length bytes) sso_threshold then (inline bytes, s) else (
  slice_of s.next 0 (length bytes),
  record (set s.next (counted 1 bytes) s) { next = s.next + 1 },
)

unfoldable pub consume : ℕ → Buffer → Buffer
consume n null = null
consume n (inline bytes) = inline (drop n bytes)
consume n (slice_of address first last) = slice_of address (first + n) last

-- One reference less; the last one deletes the block. There is no count to read where the block was
-- deleted.
unfoldable pub release : ℕ → Block → Store → Option Store
release address absent s = none
release address (counted count bytes) s =
    let less = (count + (2 ^ 32 - 1)) % 2 ^ 32 in
    some (set address (if less == 0 then absent else counted less bytes) s)

unfoldable pub destroy : Buffer → Store → Option Store
unfolding release
destroy null s = some s
destroy (inline bytes) s = some s
destroy (slice_of address first last) s = release address (s.block address) s

-- `buffer(rc, begin, end)`: one reference more.
unfoldable pub retain : ℕ → Block → Store → Option Store
retain address absent s = none
retain address (counted count bytes) s = some (set address (counted ((count + 1) % 2 ^ 32) bytes) s)

-- The new buffer of `slice`: of at most 20 bytes a copy, else another reference to the block. A
-- buffer whose bytes stand in itself has no more than 20 of them, by the assertion on the size.
unfoldable pub slice_large : ℕ → Buffer → Store → Option (Buffer × Store)
unfolding retain
slice_large n null s = none
slice_large n (inline bytes) s = none
slice_large n (slice_of address first last) s = elim (retain address (s.block address) s) [
  | none ↦ none
  | some kept ↦ some (slice_of address first (first + n), kept)
]

unfoldable pub slice_part : ℕ → Buffer → Store → Option (Buffer × Store)
unfolding contents create slice_large
slice_part n b s =
    if n == 0
    then some (null, s)
    else if leb n sso_threshold
    then some (create (take n (contents s b)) s)
    else slice_large n b s

-- The new buffer, the old one behind the slice, and the store.
unfoldable pub slice : ℕ → Buffer → Store → Option (Buffer × Buffer × Store)
unfolding slice_part consume
slice n b s = elim (slice_part n b s) [
  | none ↦ none
  | some (part, kept) ↦ some (part, consume n b, kept)
]

unfoldable pub concat : Buffer → Buffer → Store → Buffer × Store
unfolding create contents
concat first second s = create (contents s first ++ contents s second) s
