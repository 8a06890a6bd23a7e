-- ===== src/Huffman/Encoding/Entry.antt =====
-- bnl/http3/src/codec/qpack/huffman/encode_generated.cpp: an entry of the encoding table.
use bnl.Prelude.{ℕ}

pub data Symbol : Type 0 where
  symbol : (code num_bits : ℕ) → Symbol

abbrev pub symbol_code : Symbol → ℕ
symbol_code (symbol code num_bits) = code

abbrev pub symbol_bits : Symbol → ℕ
symbol_bits (symbol code num_bits) = num_bits
