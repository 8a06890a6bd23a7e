-- ===== src/Huffman/Decoding/Rows80.antt =====
-- bnl/http3/src/codec/qpack/huffman/decode_generated.cpp: the rows of `table` from 80 to 87.
use bnl.Prelude.{List, [], ◌∷◌}
use bnl.Huffman.Decoding.Entry.{Node, node}

unfoldable pub rows_80 : List (List Node)
rows_80 =
    (node 3 0x02 39
      ∷ node 6 0x02 39
      ∷ node 10 0x02 39
      ∷ node 15 0x02 39
      ∷ node 24 0x02 39
      ∷ node 31 0x02 39
      ∷ node 41 0x02 39
      ∷ node 56 0x03 39
      ∷ node 3 0x02 43
      ∷ node 6 0x02 43
      ∷ node 10 0x02 43
      ∷ node 15 0x02 43
      ∷ node 24 0x02 43
      ∷ node 31 0x02 43
      ∷ node 41 0x02 43
      ∷ node 56 0x03 43
      ∷ [])
    ∷ (node 2 0x02 124
        ∷ node 9 0x02 124
        ∷ node 23 0x02 124
        ∷ node 40 0x03 124
        ∷ node 1 0x02 35
        ∷ node 22 0x03 35
        ∷ node 1 0x02 62
        ∷ node 22 0x03 62
        ∷ node 0 0x03 0
        ∷ node 0 0x03 36
        ∷ node 0 0x03 64
        ∷ node 0 0x03 91
        ∷ node 0 0x03 93
        ∷ node 0 0x03 126
        ∷ node 91 0x00 0
        ∷ node 92 0x00 0
        ∷ [])
    ∷ (node 3 0x02 124
        ∷ node 6 0x02 124
        ∷ node 10 0x02 124
        ∷ node 15 0x02 124
        ∷ node 24 0x02 124
        ∷ node 31 0x02 124
        ∷ node 41 0x02 124
        ∷ node 56 0x03 124
        ∷ node 2 0x02 35
        ∷ node 9 0x02 35
        ∷ node 23 0x02 35
        ∷ node 40 0x03 35
        ∷ node 2 0x02 62
        ∷ node 9 0x02 62
        ∷ node 23 0x02 62
        ∷ node 40 0x03 62
        ∷ [])
    ∷ (node 3 0x02 35
        ∷ node 6 0x02 35
        ∷ node 10 0x02 35
        ∷ node 15 0x02 35
        ∷ node 24 0x02 35
        ∷ node 31 0x02 35
        ∷ node 41 0x02 35
        ∷ node 56 0x03 35
        ∷ node 3 0x02 62
        ∷ node 6 0x02 62
        ∷ node 10 0x02 62
        ∷ node 15 0x02 62
        ∷ node 24 0x02 62
        ∷ node 31 0x02 62
        ∷ node 41 0x02 62
        ∷ node 56 0x03 62
        ∷ [])
    ∷ (node 1 0x02 0
        ∷ node 22 0x03 0
        ∷ node 1 0x02 36
        ∷ node 22 0x03 36
        ∷ node 1 0x02 64
        ∷ node 22 0x03 64
        ∷ node 1 0x02 91
        ∷ node 22 0x03 91
        ∷ node 1 0x02 93
        ∷ node 22 0x03 93
        ∷ node 1 0x02 126
        ∷ node 22 0x03 126
        ∷ node 0 0x03 94
        ∷ node 0 0x03 125
        ∷ node 93 0x00 0
        ∷ node 94 0x00 0
        ∷ [])
    ∷ (node 2 0x02 0
        ∷ node 9 0x02 0
        ∷ node 23 0x02 0
        ∷ node 40 0x03 0
        ∷ node 2 0x02 36
        ∷ node 9 0x02 36
        ∷ node 23 0x02 36
        ∷ node 40 0x03 36
        ∷ node 2 0x02 64
        ∷ node 9 0x02 64
        ∷ node 23 0x02 64
        ∷ node 40 0x03 64
        ∷ node 2 0x02 91
        ∷ node 9 0x02 91
        ∷ node 23 0x02 91
        ∷ node 40 0x03 91
        ∷ [])
    ∷ (node 3 0x02 0
        ∷ node 6 0x02 0
        ∷ node 10 0x02 0
        ∷ node 15 0x02 0
        ∷ node 24 0x02 0
        ∷ node 31 0x02 0
        ∷ node 41 0x02 0
        ∷ node 56 0x03 0
        ∷ node 3 0x02 36
        ∷ node 6 0x02 36
        ∷ node 10 0x02 36
        ∷ node 15 0x02 36
        ∷ node 24 0x02 36
        ∷ node 31 0x02 36
        ∷ node 41 0x02 36
        ∷ node 56 0x03 36
        ∷ [])
    ∷ (node 3 0x02 64
        ∷ node 6 0x02 64
        ∷ node 10 0x02 64
        ∷ node 15 0x02 64
        ∷ node 24 0x02 64
        ∷ node 31 0x02 64
        ∷ node 41 0x02 64
        ∷ node 56 0x03 64
        ∷ node 3 0x02 91
        ∷ node 6 0x02 91
        ∷ node 10 0x02 91
        ∷ node 15 0x02 91
        ∷ node 24 0x02 91
        ∷ node 31 0x02 91
        ∷ node 41 0x02 91
        ∷ node 56 0x03 91
        ∷ [])
    ∷ []
