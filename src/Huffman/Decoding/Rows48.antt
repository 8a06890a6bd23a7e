-- ===== src/Huffman/Decoding/Rows48.antt =====
-- bnl/http3/src/codec/qpack/huffman/decode_generated.cpp: the rows of `table` from 48 to 55.
use bnl.Prelude.{List, [], ◌∷◌}
use bnl.Huffman.Decoding.Entry.{Node, node}

unfoldable pub rows_48 : List (List Node)
rows_48 =
    (node 3 0x02 75
      ∷ node 6 0x02 75
      ∷ node 10 0x02 75
      ∷ node 15 0x02 75
      ∷ node 24 0x02 75
      ∷ node 31 0x02 75
      ∷ node 41 0x02 75
      ∷ node 56 0x03 75
      ∷ node 3 0x02 76
      ∷ node 6 0x02 76
      ∷ node 10 0x02 76
      ∷ node 15 0x02 76
      ∷ node 24 0x02 76
      ∷ node 31 0x02 76
      ∷ node 41 0x02 76
      ∷ node 56 0x03 76
      ∷ [])
    ∷ (node 1 0x02 77
        ∷ node 22 0x03 77
        ∷ node 1 0x02 78
        ∷ node 22 0x03 78
        ∷ node 1 0x02 79
        ∷ node 22 0x03 79
        ∷ node 1 0x02 80
        ∷ node 22 0x03 80
        ∷ node 1 0x02 81
        ∷ node 22 0x03 81
        ∷ node 1 0x02 82
        ∷ node 22 0x03 82
        ∷ node 1 0x02 83
        ∷ node 22 0x03 83
        ∷ node 1 0x02 84
        ∷ node 22 0x03 84
        ∷ [])
    ∷ (node 2 0x02 77
        ∷ node 9 0x02 77
        ∷ node 23 0x02 77
        ∷ node 40 0x03 77
        ∷ node 2 0x02 78
        ∷ node 9 0x02 78
        ∷ node 23 0x02 78
        ∷ node 40 0x03 78
        ∷ node 2 0x02 79
        ∷ node 9 0x02 79
        ∷ node 23 0x02 79
        ∷ node 40 0x03 79
        ∷ node 2 0x02 80
        ∷ node 9 0x02 80
        ∷ node 23 0x02 80
        ∷ node 40 0x03 80
        ∷ [])
    ∷ (node 3 0x02 77
        ∷ node 6 0x02 77
        ∷ node 10 0x02 77
        ∷ node 15 0x02 77
        ∷ node 24 0x02 77
        ∷ node 31 0x02 77
        ∷ node 41 0x02 77
        ∷ node 56 0x03 77
        ∷ node 3 0x02 78
        ∷ node 6 0x02 78
        ∷ node 10 0x02 78
        ∷ node 15 0x02 78
        ∷ node 24 0x02 78
        ∷ node 31 0x02 78
        ∷ node 41 0x02 78
        ∷ node 56 0x03 78
        ∷ [])
    ∷ (node 3 0x02 79
        ∷ node 6 0x02 79
        ∷ node 10 0x02 79
        ∷ node 15 0x02 79
        ∷ node 24 0x02 79
        ∷ node 31 0x02 79
        ∷ node 41 0x02 79
        ∷ node 56 0x03 79
        ∷ node 3 0x02 80
        ∷ node 6 0x02 80
        ∷ node 10 0x02 80
        ∷ node 15 0x02 80
        ∷ node 24 0x02 80
        ∷ node 31 0x02 80
        ∷ node 41 0x02 80
        ∷ node 56 0x03 80
        ∷ [])
    ∷ (node 2 0x02 81
        ∷ node 9 0x02 81
        ∷ node 23 0x02 81
        ∷ node 40 0x03 81
        ∷ node 2 0x02 82
        ∷ node 9 0x02 82
        ∷ node 23 0x02 82
        ∷ node 40 0x03 82
        ∷ node 2 0x02 83
        ∷ node 9 0x02 83
        ∷ node 23 0x02 83
        ∷ node 40 0x03 83
        ∷ node 2 0x02 84
        ∷ node 9 0x02 84
        ∷ node 23 0x02 84
        ∷ node 40 0x03 84
        ∷ [])
    ∷ (node 3 0x02 81
        ∷ node 6 0x02 81
        ∷ node 10 0x02 81
        ∷ node 15 0x02 81
        ∷ node 24 0x02 81
        ∷ node 31 0x02 81
        ∷ node 41 0x02 81
        ∷ node 56 0x03 81
        ∷ node 3 0x02 82
        ∷ node 6 0x02 82
        ∷ node 10 0x02 82
        ∷ node 15 0x02 82
        ∷ node 24 0x02 82
        ∷ node 31 0x02 82
        ∷ node 41 0x02 82
        ∷ node 56 0x03 82
        ∷ [])
    ∷ (node 3 0x02 83
        ∷ node 6 0x02 83
        ∷ node 10 0x02 83
        ∷ node 15 0x02 83
        ∷ node 24 0x02 83
        ∷ node 31 0x02 83
        ∷ node 41 0x02 83
        ∷ node 56 0x03 83
        ∷ node 3 0x02 84
        ∷ node 6 0x02 84
        ∷ node 10 0x02 84
        ∷ node 15 0x02 84
        ∷ node 24 0x02 84
        ∷ node 31 0x02 84
        ∷ node 41 0x02 84
        ∷ node 56 0x03 84
        ∷ [])
    ∷ []
