-- ===== src/Huffman/Decoding/Rows56.antt =====
-- bnl/http3/src/codec/qpack/huffman/decode_generated.cpp: the rows of `table` from 56 to 63.
use bnl.Prelude.{List, [], ◌∷◌}
use bnl.Huffman.Decoding.Entry.{Node, node}

unfoldable pub rows_56 : List (List Node)
rows_56 =
    (node 0 0x03 85
      ∷ node 0 0x03 86
      ∷ node 0 0x03 87
      ∷ node 0 0x03 89
      ∷ node 0 0x03 106
      ∷ node 0 0x03 107
      ∷ node 0 0x03 113
      ∷ node 0 0x03 118
      ∷ node 0 0x03 119
      ∷ node 0 0x03 120
      ∷ node 0 0x03 121
      ∷ node 0 0x03 122
      ∷ node 70 0x00 0
      ∷ node 71 0x00 0
      ∷ node 73 0x00 0
      ∷ node 74 0x01 0
      ∷ [])
    ∷ (node 1 0x02 85
        ∷ node 22 0x03 85
        ∷ node 1 0x02 86
        ∷ node 22 0x03 86
        ∷ node 1 0x02 87
        ∷ node 22 0x03 87
        ∷ node 1 0x02 89
        ∷ node 22 0x03 89
        ∷ node 1 0x02 106
        ∷ node 22 0x03 106
        ∷ node 1 0x02 107
        ∷ node 22 0x03 107
        ∷ node 1 0x02 113
        ∷ node 22 0x03 113
        ∷ node 1 0x02 118
        ∷ node 22 0x03 118
        ∷ [])
    ∷ (node 2 0x02 85
        ∷ node 9 0x02 85
        ∷ node 23 0x02 85
        ∷ node 40 0x03 85
        ∷ node 2 0x02 86
        ∷ node 9 0x02 86
        ∷ node 23 0x02 86
        ∷ node 40 0x03 86
        ∷ node 2 0x02 87
        ∷ node 9 0x02 87
        ∷ node 23 0x02 87
        ∷ node 40 0x03 87
        ∷ node 2 0x02 89
        ∷ node 9 0x02 89
        ∷ node 23 0x02 89
        ∷ node 40 0x03 89
        ∷ [])
    ∷ (node 3 0x02 85
        ∷ node 6 0x02 85
        ∷ node 10 0x02 85
        ∷ node 15 0x02 85
        ∷ node 24 0x02 85
        ∷ node 31 0x02 85
        ∷ node 41 0x02 85
        ∷ node 56 0x03 85
        ∷ node 3 0x02 86
        ∷ node 6 0x02 86
        ∷ node 10 0x02 86
        ∷ node 15 0x02 86
        ∷ node 24 0x02 86
        ∷ node 31 0x02 86
        ∷ node 41 0x02 86
        ∷ node 56 0x03 86
        ∷ [])
    ∷ (node 3 0x02 87
        ∷ node 6 0x02 87
        ∷ node 10 0x02 87
        ∷ node 15 0x02 87
        ∷ node 24 0x02 87
        ∷ node 31 0x02 87
        ∷ node 41 0x02 87
        ∷ node 56 0x03 87
        ∷ node 3 0x02 89
        ∷ node 6 0x02 89
        ∷ node 10 0x02 89
        ∷ node 15 0x02 89
        ∷ node 24 0x02 89
        ∷ node 31 0x02 89
        ∷ node 41 0x02 89
        ∷ node 56 0x03 89
        ∷ [])
    ∷ (node 2 0x02 106
        ∷ node 9 0x02 106
        ∷ node 23 0x02 106
        ∷ node 40 0x03 106
        ∷ node 2 0x02 107
        ∷ node 9 0x02 107
        ∷ node 23 0x02 107
        ∷ node 40 0x03 107
        ∷ node 2 0x02 113
        ∷ node 9 0x02 113
        ∷ node 23 0x02 113
        ∷ node 40 0x03 113
        ∷ node 2 0x02 118
        ∷ node 9 0x02 118
        ∷ node 23 0x02 118
        ∷ node 40 0x03 118
        ∷ [])
    ∷ (node 3 0x02 106
        ∷ node 6 0x02 106
        ∷ node 10 0x02 106
        ∷ node 15 0x02 106
        ∷ node 24 0x02 106
        ∷ node 31 0x02 106
        ∷ node 41 0x02 106
        ∷ node 56 0x03 106
        ∷ node 3 0x02 107
        ∷ node 6 0x02 107
        ∷ node 10 0x02 107
        ∷ node 15 0x02 107
        ∷ node 24 0x02 107
        ∷ node 31 0x02 107
        ∷ node 41 0x02 107
        ∷ node 56 0x03 107
        ∷ [])
    ∷ (node 3 0x02 113
        ∷ node 6 0x02 113
        ∷ node 10 0x02 113
        ∷ node 15 0x02 113
        ∷ node 24 0x02 113
        ∷ node 31 0x02 113
        ∷ node 41 0x02 113
        ∷ node 56 0x03 113
        ∷ node 3 0x02 118
        ∷ node 6 0x02 118
        ∷ node 10 0x02 118
        ∷ node 15 0x02 118
        ∷ node 24 0x02 118
        ∷ node 31 0x02 118
        ∷ node 41 0x02 118
        ∷ node 56 0x03 118
        ∷ [])
    ∷ []
