-- ===== src/Huffman/Decoding/Entry.antt =====
-- bnl/http3/src/codec/qpack/huffman/decode_generated.cpp: an entry of the decoding table.
use bnl.Prelude.{ℕ}

pub data Node : Type 0 where
  node : (state flags symbol : ℕ) → Node

abbrev pub node_state : Node → ℕ
node_state (node state flags symbol) = state

abbrev pub node_flags : Node → ℕ
node_flags (node state flags symbol) = flags

abbrev pub node_symbol : Node → ℕ
node_symbol (node state flags symbol) = symbol
