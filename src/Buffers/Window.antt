-- ===== src/Buffers/Window.antt =====
-- `buffers::lookahead` and `buffer::lookahead`: a window on a sequence that it does not change.
-- Both have the same members; the sequence is the buffers' view, or the bytes of the one buffer.
use bnl.Prelude.{
  ℕ, ◌+◌, ◌-◌, ◌%◌, ◌^◌, ◌≤◌, ◌<◌, arith, ◌≡◌, arith, List, length, drop, get_or, ◌==◌, Bool,
}

pub record Lookahead : Type 0 where
  pub bytes : List ℕ
  pub previous : ℕ
  pub position : ℕ

-- The constructor on a sequence, and the one on another lookahead.
pub of_sequence : List ℕ → Lookahead
of_sequence bytes = record { bytes = bytes; previous = 0; position = 0 }

pub of_lookahead : Lookahead → Lookahead
of_lookahead other = record {
  bytes = other.bytes;
  previous = (other.previous + other.position) % 2 ^ 64;
  position = 0;
}

-- `buffers_.size() - position_ - previous_`, a difference of size_t.
unfoldable pub size : Lookahead → ℕ
size l = (length l.bytes + (2 ^ 64 - l.position) + (2 ^ 64 - l.previous)) % 2 ^ 64

pub empty : Lookahead → Bool
unfolding size
empty l = size l == 0

-- The index is below `size`, by an assertion; `operator*` reads at the index 0.
pub get : Lookahead → ℕ → ℕ
get l index = get_or l.bytes ((l.previous + l.position + index) % 2 ^ 64) 0

-- At most `size` bytes are consumed, by an assertion.
pub consume : ℕ → Lookahead → Lookahead
consume n l = record l { position = (l.position + n) % 2 ^ 64 }

pub consumed : Lookahead → ℕ
consumed l = l.position

-- The bytes that are still ahead.
pub ahead : Lookahead → List ℕ
ahead l = drop (l.previous + l.position) l.bytes

-- The lookahead does not stand behind the end of its sequence.
abbrev pub InBounds : Lookahead → Type 0
InBounds l = (l.previous + l.position ≤ length l.bytes) × (length l.bytes < 2 ^ 64)

-- A lookahead behaves as the sequence of the bytes ahead: its size, its bytes, and what consuming
-- and copying leave ahead, which does not stand behind the end either.
pub record IsWindow (l : Lookahead) (i n : ℕ) : Type 0 where
  pub sized : size l ≡ length (ahead l)
  pub reads : get l i ≡ get_or (ahead l) i 0
  pub consumes : ahead (consume n l) ≡ drop n (ahead l)
  pub stays : InBounds (consume n l)
  pub counts : consumed (consume n l) ≡ consumed l + n
  pub copies : ahead (of_lookahead l) ≡ ahead l
  pub copy_stays : InBounds (of_lookahead l)
