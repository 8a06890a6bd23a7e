-- ===== src/Huffman/Decoding/Rows24.antt =====
-- bnl/http3/src/codec/qpack/huffman/decode_generated.cpp: the rows of `table` from 24 to 31.
use bnl.Prelude.{List, [], ◌∷◌}
use bnl.Huffman.Decoding.Entry.{Node, node}

unfoldable pub rows_24 : List (List Node)
rows_24 =
    (node 1 0x02 61
      ∷ node 22 0x03 61
      ∷ node 1 0x02 65
      ∷ node 22 0x03 65
      ∷ node 1 0x02 95
      ∷ node 22 0x03 95
      ∷ node 1 0x02 98
      ∷ node 22 0x03 98
      ∷ node 1 0x02 100
      ∷ node 22 0x03 100
      ∷ node 1 0x02 102
      ∷ node 22 0x03 102
      ∷ node 1 0x02 103
      ∷ node 22 0x03 103
      ∷ node 1 0x02 104
      ∷ node 22 0x03 104
      ∷ [])
    ∷ (node 2 0x02 61
        ∷ node 9 0x02 61
        ∷ node 23 0x02 61
        ∷ node 40 0x03 61
        ∷ node 2 0x02 65
        ∷ node 9 0x02 65
        ∷ node 23 0x02 65
        ∷ node 40 0x03 65
        ∷ node 2 0x02 95
        ∷ node 9 0x02 95
        ∷ node 23 0x02 95
        ∷ node 40 0x03 95
        ∷ node 2 0x02 98
        ∷ node 9 0x02 98
        ∷ node 23 0x02 98
        ∷ node 40 0x03 98
        ∷ [])
    ∷ (node 3 0x02 61
        ∷ node 6 0x02 61
        ∷ node 10 0x02 61
        ∷ node 15 0x02 61
        ∷ node 24 0x02 61
        ∷ node 31 0x02 61
        ∷ node 41 0x02 61
        ∷ node 56 0x03 61
        ∷ node 3 0x02 65
        ∷ node 6 0x02 65
        ∷ node 10 0x02 65
        ∷ node 15 0x02 65
        ∷ node 24 0x02 65
        ∷ node 31 0x02 65
        ∷ node 41 0x02 65
        ∷ node 56 0x03 65
        ∷ [])
    ∷ (node 3 0x02 95
        ∷ node 6 0x02 95
        ∷ node 10 0x02 95
        ∷ node 15 0x02 95
        ∷ node 24 0x02 95
        ∷ node 31 0x02 95
        ∷ node 41 0x02 95
        ∷ node 56 0x03 95
        ∷ node 3 0x02 98
        ∷ node 6 0x02 98
        ∷ node 10 0x02 98
        ∷ node 15 0x02 98
        ∷ node 24 0x02 98
        ∷ node 31 0x02 98
        ∷ node 41 0x02 98
        ∷ node 56 0x03 98
        ∷ [])
    ∷ (node 2 0x02 100
        ∷ node 9 0x02 100
        ∷ node 23 0x02 100
        ∷ node 40 0x03 100
        ∷ node 2 0x02 102
        ∷ node 9 0x02 102
        ∷ node 23 0x02 102
        ∷ node 40 0x03 102
        ∷ node 2 0x02 103
        ∷ node 9 0x02 103
        ∷ node 23 0x02 103
        ∷ node 40 0x03 103
        ∷ node 2 0x02 104
        ∷ node 9 0x02 104
        ∷ node 23 0x02 104
        ∷ node 40 0x03 104
        ∷ [])
    ∷ (node 3 0x02 100
        ∷ node 6 0x02 100
        ∷ node 10 0x02 100
        ∷ node 15 0x02 100
        ∷ node 24 0x02 100
        ∷ node 31 0x02 100
        ∷ node 41 0x02 100
        ∷ node 56 0x03 100
        ∷ node 3 0x02 102
        ∷ node 6 0x02 102
        ∷ node 10 0x02 102
        ∷ node 15 0x02 102
        ∷ node 24 0x02 102
        ∷ node 31 0x02 102
        ∷ node 41 0x02 102
        ∷ node 56 0x03 102
        ∷ [])
    ∷ (node 3 0x02 103
        ∷ node 6 0x02 103
        ∷ node 10 0x02 103
        ∷ node 15 0x02 103
        ∷ node 24 0x02 103
        ∷ node 31 0x02 103
        ∷ node 41 0x02 103
        ∷ node 56 0x03 103
        ∷ node 3 0x02 104
        ∷ node 6 0x02 104
        ∷ node 10 0x02 104
        ∷ node 15 0x02 104
        ∷ node 24 0x02 104
        ∷ node 31 0x02 104
        ∷ node 41 0x02 104
        ∷ node 56 0x03 104
        ∷ [])
    ∷ (node 1 0x02 108
        ∷ node 22 0x03 108
        ∷ node 1 0x02 109
        ∷ node 22 0x03 109
        ∷ node 1 0x02 110
        ∷ node 22 0x03 110
        ∷ node 1 0x02 112
        ∷ node 22 0x03 112
        ∷ node 1 0x02 114
        ∷ node 22 0x03 114
        ∷ node 1 0x02 117
        ∷ node 22 0x03 117
        ∷ node 0 0x03 58
        ∷ node 0 0x03 66
        ∷ node 0 0x03 67
        ∷ node 0 0x03 68
        ∷ [])
    ∷ []
