-- ===== src/Huffman/Encoding/Symbols0.antt =====
-- bnl/http3/src/codec/qpack/huffman/encode_generated.cpp: the entries of `table` from 0 to 127.
use bnl.Prelude.{List, [], ◌∷◌}
use bnl.Huffman.Encoding.Entry.{Symbol, symbol}

unfoldable pub symbols_0 : List Symbol
symbols_0 =
    symbol 0x1ff8 13
    ∷ symbol 0x7fffd8 23
    ∷ symbol 0xfffffe2 28
    ∷ symbol 0xfffffe3 28
    ∷ symbol 0xfffffe4 28
    ∷ symbol 0xfffffe5 28
    ∷ symbol 0xfffffe6 28
    ∷ symbol 0xfffffe7 28
    ∷ symbol 0xfffffe8 28
    ∷ symbol 0xffffea 24
    ∷ symbol 0x3ffffffc 30
    ∷ symbol 0xfffffe9 28
    ∷ symbol 0xfffffea 28
    ∷ symbol 0x3ffffffd 30
    ∷ symbol 0xfffffeb 28
    ∷ symbol 0xfffffec 28
    ∷ symbol 0xfffffed 28
    ∷ symbol 0xfffffee 28
    ∷ symbol 0xfffffef 28
    ∷ symbol 0xffffff0 28
    ∷ symbol 0xffffff1 28
    ∷ symbol 0xffffff2 28
    ∷ symbol 0x3ffffffe 30
    ∷ symbol 0xffffff3 28
    ∷ symbol 0xffffff4 28
    ∷ symbol 0xffffff5 28
    ∷ symbol 0xffffff6 28
    ∷ symbol 0xffffff7 28
    ∷ symbol 0xffffff8 28
    ∷ symbol 0xffffff9 28
    ∷ symbol 0xffffffa 28
    ∷ symbol 0xffffffb 28
    ∷ symbol 0x14 6
    ∷ symbol 0x3f8 10
    ∷ symbol 0x3f9 10
    ∷ symbol 0xffa 12
    ∷ symbol 0x1ff9 13
    ∷ symbol 0x15 6
    ∷ symbol 0xf8 8
    ∷ symbol 0x7fa 11
    ∷ symbol 0x3fa 10
    ∷ symbol 0x3fb 10
    ∷ symbol 0xf9 8
    ∷ symbol 0x7fb 11
    ∷ symbol 0xfa 8
    ∷ symbol 0x16 6
    ∷ symbol 0x17 6
    ∷ symbol 0x18 6
    ∷ symbol 0x0 5
    ∷ symbol 0x1 5
    ∷ symbol 0x2 5
    ∷ symbol 0x19 6
    ∷ symbol 0x1a 6
    ∷ symbol 0x1b 6
    ∷ symbol 0x1c 6
    ∷ symbol 0x1d 6
    ∷ symbol 0x1e 6
    ∷ symbol 0x1f 6
    ∷ symbol 0x5c 7
    ∷ symbol 0xfb 8
    ∷ symbol 0x7ffc 15
    ∷ symbol 0x20 6
    ∷ symbol 0xffb 12
    ∷ symbol 0x3fc 10
    ∷ symbol 0x1ffa 13
    ∷ symbol 0x21 6
    ∷ symbol 0x5d 7
    ∷ symbol 0x5e 7
    ∷ symbol 0x5f 7
    ∷ symbol 0x60 7
    ∷ symbol 0x61 7
    ∷ symbol 0x62 7
    ∷ symbol 0x63 7
    ∷ symbol 0x64 7
    ∷ symbol 0x65 7
    ∷ symbol 0x66 7
    ∷ symbol 0x67 7
    ∷ symbol 0x68 7
    ∷ symbol 0x69 7
    ∷ symbol 0x6a 7
    ∷ symbol 0x6b 7
    ∷ symbol 0x6c 7
    ∷ symbol 0x6d 7
    ∷ symbol 0x6e 7
    ∷ symbol 0x6f 7
    ∷ symbol 0x70 7
    ∷ symbol 0x71 7
    ∷ symbol 0x72 7
    ∷ symbol 0xfc 8
    ∷ symbol 0x73 7
    ∷ symbol 0xfd 8
    ∷ symbol 0x1ffb 13
    ∷ symbol 0x7fff0 19
    ∷ symbol 0x1ffc 13
    ∷ symbol 0x3ffc 14
    ∷ symbol 0x22 6
    ∷ symbol 0x7ffd 15
    ∷ symbol 0x3 5
    ∷ symbol 0x23 6
    ∷ symbol 0x4 5
    ∷ symbol 0x24 6
    ∷ symbol 0x5 5
    ∷ symbol 0x25 6
    ∷ symbol 0x26 6
    ∷ symbol 0x27 6
    ∷ symbol 0x6 5
    ∷ symbol 0x74 7
    ∷ symbol 0x75 7
    ∷ symbol 0x28 6
    ∷ symbol 0x29 6
    ∷ symbol 0x2a 6
    ∷ symbol 0x7 5
    ∷ symbol 0x2b 6
    ∷ symbol 0x76 7
    ∷ symbol 0x2c 6
    ∷ symbol 0x8 5
    ∷ symbol 0x9 5
    ∷ symbol 0x2d 6
    ∷ symbol 0x77 7
    ∷ symbol 0x78 7
    ∷ symbol 0x79 7
    ∷ symbol 0x7a 7
    ∷ symbol 0x7b 7
    ∷ symbol 0x7ffe 15
    ∷ symbol 0x7fc 11
    ∷ symbol 0x3ffd 14
    ∷ symbol 0x1ffd 13
    ∷ symbol 0xffffffc 28
    ∷ []
