-- ===== src/Huffman/Decoding/Rows88.antt =====
-- bnl/http3/src/codec/qpack/huffman/decode_generated.cpp: the rows of `table` from 88 to 95.
use bnl.Prelude.{List, [], ◌∷◌}
use bnl.Huffman.Decoding.Entry.{Node, node}

unfoldable pub rows_88 : List (List Node)
rows_88 =
    (node 2 0x02 93
      ∷ node 9 0x02 93
      ∷ node 23 0x02 93
      ∷ node 40 0x03 93
      ∷ node 2 0x02 126
      ∷ node 9 0x02 126
      ∷ node 23 0x02 126
      ∷ node 40 0x03 126
      ∷ node 1 0x02 94
      ∷ node 22 0x03 94
      ∷ node 1 0x02 125
      ∷ node 22 0x03 125
      ∷ node 0 0x03 60
      ∷ node 0 0x03 96
      ∷ node 0 0x03 123
      ∷ node 95 0x00 0
      ∷ [])
    ∷ (node 3 0x02 93
        ∷ node 6 0x02 93
        ∷ node 10 0x02 93
        ∷ node 15 0x02 93
        ∷ node 24 0x02 93
        ∷ node 31 0x02 93
        ∷ node 41 0x02 93
        ∷ node 56 0x03 93
        ∷ node 3 0x02 126
        ∷ node 6 0x02 126
        ∷ node 10 0x02 126
        ∷ node 15 0x02 126
        ∷ node 24 0x02 126
        ∷ node 31 0x02 126
        ∷ node 41 0x02 126
        ∷ node 56 0x03 126
        ∷ [])
    ∷ (node 2 0x02 94
        ∷ node 9 0x02 94
        ∷ node 23 0x02 94
        ∷ node 40 0x03 94
        ∷ node 2 0x02 125
        ∷ node 9 0x02 125
        ∷ node 23 0x02 125
        ∷ node 40 0x03 125
        ∷ node 1 0x02 60
        ∷ node 22 0x03 60
        ∷ node 1 0x02 96
        ∷ node 22 0x03 96
        ∷ node 1 0x02 123
        ∷ node 22 0x03 123
        ∷ node 96 0x00 0
        ∷ node 110 0x00 0
        ∷ [])
    ∷ (node 3 0x02 94
        ∷ node 6 0x02 94
        ∷ node 10 0x02 94
        ∷ node 15 0x02 94
        ∷ node 24 0x02 94
        ∷ node 31 0x02 94
        ∷ node 41 0x02 94
        ∷ node 56 0x03 94
        ∷ node 3 0x02 125
        ∷ node 6 0x02 125
        ∷ node 10 0x02 125
        ∷ node 15 0x02 125
        ∷ node 24 0x02 125
        ∷ node 31 0x02 125
        ∷ node 41 0x02 125
        ∷ node 56 0x03 125
        ∷ [])
    ∷ (node 2 0x02 60
        ∷ node 9 0x02 60
        ∷ node 23 0x02 60
        ∷ node 40 0x03 60
        ∷ node 2 0x02 96
        ∷ node 9 0x02 96
        ∷ node 23 0x02 96
        ∷ node 40 0x03 96
        ∷ node 2 0x02 123
        ∷ node 9 0x02 123
        ∷ node 23 0x02 123
        ∷ node 40 0x03 123
        ∷ node 97 0x00 0
        ∷ node 101 0x00 0
        ∷ node 111 0x00 0
        ∷ node 133 0x00 0
        ∷ [])
    ∷ (node 3 0x02 60
        ∷ node 6 0x02 60
        ∷ node 10 0x02 60
        ∷ node 15 0x02 60
        ∷ node 24 0x02 60
        ∷ node 31 0x02 60
        ∷ node 41 0x02 60
        ∷ node 56 0x03 60
        ∷ node 3 0x02 96
        ∷ node 6 0x02 96
        ∷ node 10 0x02 96
        ∷ node 15 0x02 96
        ∷ node 24 0x02 96
        ∷ node 31 0x02 96
        ∷ node 41 0x02 96
        ∷ node 56 0x03 96
        ∷ [])
    ∷ (node 3 0x02 123
        ∷ node 6 0x02 123
        ∷ node 10 0x02 123
        ∷ node 15 0x02 123
        ∷ node 24 0x02 123
        ∷ node 31 0x02 123
        ∷ node 41 0x02 123
        ∷ node 56 0x03 123
        ∷ node 98 0x00 0
        ∷ node 99 0x00 0
        ∷ node 102 0x00 0
        ∷ node 105 0x00 0
        ∷ node 112 0x00 0
        ∷ node 119 0x00 0
        ∷ node 134 0x00 0
        ∷ node 153 0x00 0
        ∷ [])
    ∷ (node 0 0x03 92
        ∷ node 0 0x03 195
        ∷ node 0 0x03 208
        ∷ node 100 0x00 0
        ∷ node 103 0x00 0
        ∷ node 104 0x00 0
        ∷ node 106 0x00 0
        ∷ node 107 0x00 0
        ∷ node 113 0x00 0
        ∷ node 116 0x00 0
        ∷ node 120 0x00 0
        ∷ node 126 0x00 0
        ∷ node 135 0x00 0
        ∷ node 142 0x00 0
        ∷ node 154 0x00 0
        ∷ node 169 0x00 0
        ∷ [])
    ∷ []
