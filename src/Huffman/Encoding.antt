-- ===== src/Huffman/Encoding.antt =====
-- bnl/http3/src/codec/qpack/huffman/encode_generated.cpp: the code of each byte, and of the end of
-- the string, which has the index 256.
pub mod Entry
mod Symbols0
mod Symbols128
use bnl.Prelude.{ℕ, List, ◌++◌, get_or}
use bnl.Huffman.Encoding.Entry.{Symbol, symbol}
use bnl.Huffman.Encoding.Symbols0.{symbols_0}
use bnl.Huffman.Encoding.Symbols128.{symbols_128}

unfoldable pub table : List Symbol
unfolding symbols_0 symbols_128
table = symbols_0 ++ symbols_128

-- `table[byte]`.
unfoldable pub symbol_at : ℕ → Symbol
unfolding table
symbol_at byte = get_or table byte (symbol 0 0)
