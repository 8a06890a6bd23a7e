-- ===== src/Huffman/Decoding/Rows40.antt =====
-- bnl/http3/src/codec/qpack/huffman/decode_generated.cpp: the rows of `table` from 40 to 47.
use bnl.Prelude.{List, [], ◌∷◌}
use bnl.Huffman.Decoding.Entry.{Node, node}

unfoldable pub rows_40 : List (List Node)
rows_40 =
    (node 44 0x00 0
      ∷ node 45 0x00 0
      ∷ node 47 0x00 0
      ∷ node 48 0x00 0
      ∷ node 51 0x00 0
      ∷ node 52 0x00 0
      ∷ node 54 0x00 0
      ∷ node 55 0x00 0
      ∷ node 59 0x00 0
      ∷ node 60 0x00 0
      ∷ node 62 0x00 0
      ∷ node 63 0x00 0
      ∷ node 66 0x00 0
      ∷ node 67 0x00 0
      ∷ node 69 0x00 0
      ∷ node 72 0x01 0
      ∷ [])
    ∷ (node 0 0x03 69
        ∷ node 0 0x03 70
        ∷ node 0 0x03 71
        ∷ node 0 0x03 72
        ∷ node 0 0x03 73
        ∷ node 0 0x03 74
        ∷ node 0 0x03 75
        ∷ node 0 0x03 76
        ∷ node 0 0x03 77
        ∷ node 0 0x03 78
        ∷ node 0 0x03 79
        ∷ node 0 0x03 80
        ∷ node 0 0x03 81
        ∷ node 0 0x03 82
        ∷ node 0 0x03 83
        ∷ node 0 0x03 84
        ∷ [])
    ∷ (node 1 0x02 69
        ∷ node 22 0x03 69
        ∷ node 1 0x02 70
        ∷ node 22 0x03 70
        ∷ node 1 0x02 71
        ∷ node 22 0x03 71
        ∷ node 1 0x02 72
        ∷ node 22 0x03 72
        ∷ node 1 0x02 73
        ∷ node 22 0x03 73
        ∷ node 1 0x02 74
        ∷ node 22 0x03 74
        ∷ node 1 0x02 75
        ∷ node 22 0x03 75
        ∷ node 1 0x02 76
        ∷ node 22 0x03 76
        ∷ [])
    ∷ (node 2 0x02 69
        ∷ node 9 0x02 69
        ∷ node 23 0x02 69
        ∷ node 40 0x03 69
        ∷ node 2 0x02 70
        ∷ node 9 0x02 70
        ∷ node 23 0x02 70
        ∷ node 40 0x03 70
        ∷ node 2 0x02 71
        ∷ node 9 0x02 71
        ∷ node 23 0x02 71
        ∷ node 40 0x03 71
        ∷ node 2 0x02 72
        ∷ node 9 0x02 72
        ∷ node 23 0x02 72
        ∷ node 40 0x03 72
        ∷ [])
    ∷ (node 3 0x02 69
        ∷ node 6 0x02 69
        ∷ node 10 0x02 69
        ∷ node 15 0x02 69
        ∷ node 24 0x02 69
        ∷ node 31 0x02 69
        ∷ node 41 0x02 69
        ∷ node 56 0x03 69
        ∷ node 3 0x02 70
        ∷ node 6 0x02 70
        ∷ node 10 0x02 70
        ∷ node 15 0x02 70
        ∷ node 24 0x02 70
        ∷ node 31 0x02 70
        ∷ node 41 0x02 70
        ∷ node 56 0x03 70
        ∷ [])
    ∷ (node 3 0x02 71
        ∷ node 6 0x02 71
        ∷ node 10 0x02 71
        ∷ node 15 0x02 71
        ∷ node 24 0x02 71
        ∷ node 31 0x02 71
        ∷ node 41 0x02 71
        ∷ node 56 0x03 71
        ∷ node 3 0x02 72
        ∷ node 6 0x02 72
        ∷ node 10 0x02 72
        ∷ node 15 0x02 72
        ∷ node 24 0x02 72
        ∷ node 31 0x02 72
        ∷ node 41 0x02 72
        ∷ node 56 0x03 72
        ∷ [])
    ∷ (node 2 0x02 73
        ∷ node 9 0x02 73
        ∷ node 23 0x02 73
        ∷ node 40 0x03 73
        ∷ node 2 0x02 74
        ∷ node 9 0x02 74
        ∷ node 23 0x02 74
        ∷ node 40 0x03 74
        ∷ node 2 0x02 75
        ∷ node 9 0x02 75
        ∷ node 23 0x02 75
        ∷ node 40 0x03 75
        ∷ node 2 0x02 76
        ∷ node 9 0x02 76
        ∷ node 23 0x02 76
        ∷ node 40 0x03 76
        ∷ [])
    ∷ (node 3 0x02 73
        ∷ node 6 0x02 73
        ∷ node 10 0x02 73
        ∷ node 15 0x02 73
        ∷ node 24 0x02 73
        ∷ node 31 0x02 73
        ∷ node 41 0x02 73
        ∷ node 56 0x03 73
        ∷ node 3 0x02 74
        ∷ node 6 0x02 74
        ∷ node 10 0x02 74
        ∷ node 15 0x02 74
        ∷ node 24 0x02 74
        ∷ node 31 0x02 74
        ∷ node 41 0x02 74
        ∷ node 56 0x03 74
        ∷ [])
    ∷ []
