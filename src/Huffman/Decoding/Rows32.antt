-- ===== src/Huffman/Decoding/Rows32.antt =====
-- bnl/http3/src/codec/qpack/huffman/decode_generated.cpp: the rows of `table` from 32 to 39.
use bnl.Prelude.{List, [], ◌∷◌}
use bnl.Huffman.Decoding.Entry.{Node, node}

unfoldable pub rows_32 : List (List Node)
rows_32 =
    (node 2 0x02 108
      ∷ node 9 0x02 108
      ∷ node 23 0x02 108
      ∷ node 40 0x03 108
      ∷ node 2 0x02 109
      ∷ node 9 0x02 109
      ∷ node 23 0x02 109
      ∷ node 40 0x03 109
      ∷ node 2 0x02 110
      ∷ node 9 0x02 110
      ∷ node 23 0x02 110
      ∷ node 40 0x03 110
      ∷ node 2 0x02 112
      ∷ node 9 0x02 112
      ∷ node 23 0x02 112
      ∷ node 40 0x03 112
      ∷ [])
    ∷ (node 3 0x02 108
        ∷ node 6 0x02 108
        ∷ node 10 0x02 108
        ∷ node 15 0x02 108
        ∷ node 24 0x02 108
        ∷ node 31 0x02 108
        ∷ node 41 0x02 108
        ∷ node 56 0x03 108
        ∷ node 3 0x02 109
        ∷ node 6 0x02 109
        ∷ node 10 0x02 109
        ∷ node 15 0x02 109
        ∷ node 24 0x02 109
        ∷ node 31 0x02 109
        ∷ node 41 0x02 109
        ∷ node 56 0x03 109
        ∷ [])
    ∷ (node 3 0x02 110
        ∷ node 6 0x02 110
        ∷ node 10 0x02 110
        ∷ node 15 0x02 110
        ∷ node 24 0x02 110
        ∷ node 31 0x02 110
        ∷ node 41 0x02 110
        ∷ node 56 0x03 110
        ∷ node 3 0x02 112
        ∷ node 6 0x02 112
        ∷ node 10 0x02 112
        ∷ node 15 0x02 112
        ∷ node 24 0x02 112
        ∷ node 31 0x02 112
        ∷ node 41 0x02 112
        ∷ node 56 0x03 112
        ∷ [])
    ∷ (node 2 0x02 114
        ∷ node 9 0x02 114
        ∷ node 23 0x02 114
        ∷ node 40 0x03 114
        ∷ node 2 0x02 117
        ∷ node 9 0x02 117
        ∷ node 23 0x02 117
        ∷ node 40 0x03 117
        ∷ node 1 0x02 58
        ∷ node 22 0x03 58
        ∷ node 1 0x02 66
        ∷ node 22 0x03 66
        ∷ node 1 0x02 67
        ∷ node 22 0x03 67
        ∷ node 1 0x02 68
        ∷ node 22 0x03 68
        ∷ [])
    ∷ (node 3 0x02 114
        ∷ node 6 0x02 114
        ∷ node 10 0x02 114
        ∷ node 15 0x02 114
        ∷ node 24 0x02 114
        ∷ node 31 0x02 114
        ∷ node 41 0x02 114
        ∷ node 56 0x03 114
        ∷ node 3 0x02 117
        ∷ node 6 0x02 117
        ∷ node 10 0x02 117
        ∷ node 15 0x02 117
        ∷ node 24 0x02 117
        ∷ node 31 0x02 117
        ∷ node 41 0x02 117
        ∷ node 56 0x03 117
        ∷ [])
    ∷ (node 2 0x02 58
        ∷ node 9 0x02 58
        ∷ node 23 0x02 58
        ∷ node 40 0x03 58
        ∷ node 2 0x02 66
        ∷ node 9 0x02 66
        ∷ node 23 0x02 66
        ∷ node 40 0x03 66
        ∷ node 2 0x02 67
        ∷ node 9 0x02 67
        ∷ node 23 0x02 67
        ∷ node 40 0x03 67
        ∷ node 2 0x02 68
        ∷ node 9 0x02 68
        ∷ node 23 0x02 68
        ∷ node 40 0x03 68
        ∷ [])
    ∷ (node 3 0x02 58
        ∷ node 6 0x02 58
        ∷ node 10 0x02 58
        ∷ node 15 0x02 58
        ∷ node 24 0x02 58
        ∷ node 31 0x02 58
        ∷ node 41 0x02 58
        ∷ node 56 0x03 58
        ∷ node 3 0x02 66
        ∷ node 6 0x02 66
        ∷ node 10 0x02 66
        ∷ node 15 0x02 66
        ∷ node 24 0x02 66
        ∷ node 31 0x02 66
        ∷ node 41 0x02 66
        ∷ node 56 0x03 66
        ∷ [])
    ∷ (node 3 0x02 67
        ∷ node 6 0x02 67
        ∷ node 10 0x02 67
        ∷ node 15 0x02 67
        ∷ node 24 0x02 67
        ∷ node 31 0x02 67
        ∷ node 41 0x02 67
        ∷ node 56 0x03 67
        ∷ node 3 0x02 68
        ∷ node 6 0x02 68
        ∷ node 10 0x02 68
        ∷ node 15 0x02 68
        ∷ node 24 0x02 68
        ∷ node 31 0x02 68
        ∷ node 41 0x02 68
        ∷ node 56 0x03 68
        ∷ [])
    ∷ []
