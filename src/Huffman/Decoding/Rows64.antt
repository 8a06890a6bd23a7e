-- ===== src/Huffman/Decoding/Rows64.antt =====
-- bnl/http3/src/codec/qpack/huffman/decode_generated.cpp: the rows of `table` from 64 to 71.
use bnl.Prelude.{List, [], ◌∷◌}
use bnl.Huffman.Decoding.Entry.{Node, node}

unfoldable pub rows_64 : List (List Node)
rows_64 =
    (node 1 0x02 119
      ∷ node 22 0x03 119
      ∷ node 1 0x02 120
      ∷ node 22 0x03 120
      ∷ node 1 0x02 121
      ∷ node 22 0x03 121
      ∷ node 1 0x02 122
      ∷ node 22 0x03 122
      ∷ node 0 0x03 38
      ∷ node 0 0x03 42
      ∷ node 0 0x03 44
      ∷ node 0 0x03 59
      ∷ node 0 0x03 88
      ∷ node 0 0x03 90
      ∷ node 75 0x00 0
      ∷ node 78 0x00 0
      ∷ [])
    ∷ (node 2 0x02 119
        ∷ node 9 0x02 119
        ∷ node 23 0x02 119
        ∷ node 40 0x03 119
        ∷ node 2 0x02 120
        ∷ node 9 0x02 120
        ∷ node 23 0x02 120
        ∷ node 40 0x03 120
        ∷ node 2 0x02 121
        ∷ node 9 0x02 121
        ∷ node 23 0x02 121
        ∷ node 40 0x03 121
        ∷ node 2 0x02 122
        ∷ node 9 0x02 122
        ∷ node 23 0x02 122
        ∷ node 40 0x03 122
        ∷ [])
    ∷ (node 3 0x02 119
        ∷ node 6 0x02 119
        ∷ node 10 0x02 119
        ∷ node 15 0x02 119
        ∷ node 24 0x02 119
        ∷ node 31 0x02 119
        ∷ node 41 0x02 119
        ∷ node 56 0x03 119
        ∷ node 3 0x02 120
        ∷ node 6 0x02 120
        ∷ node 10 0x02 120
        ∷ node 15 0x02 120
        ∷ node 24 0x02 120
        ∷ node 31 0x02 120
        ∷ node 41 0x02 120
        ∷ node 56 0x03 120
        ∷ [])
    ∷ (node 3 0x02 121
        ∷ node 6 0x02 121
        ∷ node 10 0x02 121
        ∷ node 15 0x02 121
        ∷ node 24 0x02 121
        ∷ node 31 0x02 121
        ∷ node 41 0x02 121
        ∷ node 56 0x03 121
        ∷ node 3 0x02 122
        ∷ node 6 0x02 122
        ∷ node 10 0x02 122
        ∷ node 15 0x02 122
        ∷ node 24 0x02 122
        ∷ node 31 0x02 122
        ∷ node 41 0x02 122
        ∷ node 56 0x03 122
        ∷ [])
    ∷ (node 1 0x02 38
        ∷ node 22 0x03 38
        ∷ node 1 0x02 42
        ∷ node 22 0x03 42
        ∷ node 1 0x02 44
        ∷ node 22 0x03 44
        ∷ node 1 0x02 59
        ∷ node 22 0x03 59
        ∷ node 1 0x02 88
        ∷ node 22 0x03 88
        ∷ node 1 0x02 90
        ∷ node 22 0x03 90
        ∷ node 76 0x00 0
        ∷ node 77 0x00 0
        ∷ node 79 0x00 0
        ∷ node 81 0x00 0
        ∷ [])
    ∷ (node 2 0x02 38
        ∷ node 9 0x02 38
        ∷ node 23 0x02 38
        ∷ node 40 0x03 38
        ∷ node 2 0x02 42
        ∷ node 9 0x02 42
        ∷ node 23 0x02 42
        ∷ node 40 0x03 42
        ∷ node 2 0x02 44
        ∷ node 9 0x02 44
        ∷ node 23 0x02 44
        ∷ node 40 0x03 44
        ∷ node 2 0x02 59
        ∷ node 9 0x02 59
        ∷ node 23 0x02 59
        ∷ node 40 0x03 59
        ∷ [])
    ∷ (node 3 0x02 38
        ∷ node 6 0x02 38
        ∷ node 10 0x02 38
        ∷ node 15 0x02 38
        ∷ node 24 0x02 38
        ∷ node 31 0x02 38
        ∷ node 41 0x02 38
        ∷ node 56 0x03 38
        ∷ node 3 0x02 42
        ∷ node 6 0x02 42
        ∷ node 10 0x02 42
        ∷ node 15 0x02 42
        ∷ node 24 0x02 42
        ∷ node 31 0x02 42
        ∷ node 41 0x02 42
        ∷ node 56 0x03 42
        ∷ [])
    ∷ (node 3 0x02 44
        ∷ node 6 0x02 44
        ∷ node 10 0x02 44
        ∷ node 15 0x02 44
        ∷ node 24 0x02 44
        ∷ node 31 0x02 44
        ∷ node 41 0x02 44
        ∷ node 56 0x03 44
        ∷ node 3 0x02 59
        ∷ node 6 0x02 59
        ∷ node 10 0x02 59
        ∷ node 15 0x02 59
        ∷ node 24 0x02 59
        ∷ node 31 0x02 59
        ∷ node 41 0x02 59
        ∷ node 56 0x03 59
        ∷ [])
    ∷ []
