-- ===== src/Huffman/Encoding/Symbols128.antt =====
-- bnl/http3/src/codec/qpack/huffman/encode_generated.cpp: the entries of `table` from 128 to 256.
use bnl.Prelude.{List, [], ◌∷◌}
use bnl.Huffman.Encoding.Entry.{Symbol, symbol}

unfoldable pub symbols_128 : List Symbol
symbols_128 =
    symbol 0xfffe6 20
    ∷ symbol 0x3fffd2 22
    ∷ symbol 0xfffe7 20
    ∷ symbol 0xfffe8 20
    ∷ symbol 0x3fffd3 22
    ∷ symbol 0x3fffd4 22
    ∷ symbol 0x3fffd5 22
    ∷ symbol 0x7fffd9 23
    ∷ symbol 0x3fffd6 22
    ∷ symbol 0x7fffda 23
    ∷ symbol 0x7fffdb 23
    ∷ symbol 0x7fffdc 23
    ∷ symbol 0x7fffdd 23
    ∷ symbol 0x7fffde 23
    ∷ symbol 0xffffeb 24
    ∷ symbol 0x7fffdf 23
    ∷ symbol 0xffffec 24
    ∷ symbol 0xffffed 24
    ∷ symbol 0x3fffd7 22
    ∷ symbol 0x7fffe0 23
    ∷ symbol 0xffffee 24
    ∷ symbol 0x7fffe1 23
    ∷ symbol 0x7fffe2 23
    ∷ symbol 0x7fffe3 23
    ∷ symbol 0x7fffe4 23
    ∷ symbol 0x1fffdc 21
    ∷ symbol 0x3fffd8 22
    ∷ symbol 0x7fffe5 23
    ∷ symbol 0x3fffd9 22
    ∷ symbol 0x7fffe6 23
    ∷ symbol 0x7fffe7 23
    ∷ symbol 0xffffef 24
    ∷ symbol 0x3fffda 22
    ∷ symbol 0x1fffdd 21
    ∷ symbol 0xfffe9 20
    ∷ symbol 0x3fffdb 22
    ∷ symbol 0x3fffdc 22
    ∷ symbol 0x7fffe8 23
    ∷ symbol 0x7fffe9 23
    ∷ symbol 0x1fffde 21
    ∷ symbol 0x7fffea 23
    ∷ symbol 0x3fffdd 22
    ∷ symbol 0x3fffde 22
    ∷ symbol 0xfffff0 24
    ∷ symbol 0x1fffdf 21
    ∷ symbol 0x3fffdf 22
    ∷ symbol 0x7fffeb 23
    ∷ symbol 0x7fffec 23
    ∷ symbol 0x1fffe0 21
    ∷ symbol 0x1fffe1 21
    ∷ symbol 0x3fffe0 22
    ∷ symbol 0x1fffe2 21
    ∷ symbol 0x7fffed 23
    ∷ symbol 0x3fffe1 22
    ∷ symbol 0x7fffee 23
    ∷ symbol 0x7fffef 23
    ∷ symbol 0xfffea 20
    ∷ symbol 0x3fffe2 22
    ∷ symbol 0x3fffe3 22
    ∷ symbol 0x3fffe4 22
    ∷ symbol 0x7ffff0 23
    ∷ symbol 0x3fffe5 22
    ∷ symbol 0x3fffe6 22
    ∷ symbol 0x7ffff1 23
    ∷ symbol 0x3ffffe0 26
    ∷ symbol 0x3ffffe1 26
    ∷ symbol 0xfffeb 20
    ∷ symbol 0x7fff1 19
    ∷ symbol 0x3fffe7 22
    ∷ symbol 0x7ffff2 23
    ∷ symbol 0x3fffe8 22
    ∷ symbol 0x1ffffec 25
    ∷ symbol 0x3ffffe2 26
    ∷ symbol 0x3ffffe3 26
    ∷ symbol 0x3ffffe4 26
    ∷ symbol 0x7ffffde 27
    ∷ symbol 0x7ffffdf 27
    ∷ symbol 0x3ffffe5 26
    ∷ symbol 0xfffff1 24
    ∷ symbol 0x1ffffed 25
    ∷ symbol 0x7fff2 19
    ∷ symbol 0x1fffe3 21
    ∷ symbol 0x3ffffe6 26
    ∷ symbol 0x7ffffe0 27
    ∷ symbol 0x7ffffe1 27
    ∷ symbol 0x3ffffe7 26
    ∷ symbol 0x7ffffe2 27
    ∷ symbol 0xfffff2 24
    ∷ symbol 0x1fffe4 21
    ∷ symbol 0x1fffe5 21
    ∷ symbol 0x3ffffe8 26
    ∷ symbol 0x3ffffe9 26
    ∷ symbol 0xffffffd 28
    ∷ symbol 0x7ffffe3 27
    ∷ symbol 0x7ffffe4 27
    ∷ symbol 0x7ffffe5 27
    ∷ symbol 0xfffec 20
    ∷ symbol 0xfffff3 24
    ∷ symbol 0xfffed 20
    ∷ symbol 0x1fffe6 21
    ∷ symbol 0x3fffe9 22
    ∷ symbol 0x1fffe7 21
    ∷ symbol 0x1fffe8 21
    ∷ symbol 0x7ffff3 23
    ∷ symbol 0x3fffea 22
    ∷ symbol 0x3fffeb 22
    ∷ symbol 0x1ffffee 25
    ∷ symbol 0x1ffffef 25
    ∷ symbol 0xfffff4 24
    ∷ symbol 0xfffff5 24
    ∷ symbol 0x3ffffea 26
    ∷ symbol 0x7ffff4 23
    ∷ symbol 0x3ffffeb 26
    ∷ symbol 0x7ffffe6 27
    ∷ symbol 0x3ffffec 26
    ∷ symbol 0x3ffffed 26
    ∷ symbol 0x7ffffe7 27
    ∷ symbol 0x7ffffe8 27
    ∷ symbol 0x7ffffe9 27
    ∷ symbol 0x7ffffea 27
    ∷ symbol 0x7ffffeb 27
    ∷ symbol 0xffffffe 28
    ∷ symbol 0x7ffffec 27
    ∷ symbol 0x7ffffed 27
    ∷ symbol 0x7ffffee 27
    ∷ symbol 0x7ffffef 27
    ∷ symbol 0x7fffff0 27
    ∷ symbol 0x3ffffee 26
    ∷ symbol 0x3fffffff 30
    ∷ []
