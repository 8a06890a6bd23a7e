-- ===== src/Huffman/Decoding/Rows0.antt =====
-- bnl/http3/src/codec/qpack/huffman/decode_generated.cpp: the rows of `table` from 0 to 7.
use bnl.Prelude.{List, [], ◌∷◌}
use bnl.Huffman.Decoding.Entry.{Node, node}

unfoldable pub rows_0 : List (List Node)
rows_0 =
    (node 4 0x00 0
      ∷ node 5 0x00 0
      ∷ node 7 0x00 0
      ∷ node 8 0x00 0
      ∷ node 11 0x00 0
      ∷ node 12 0x00 0
      ∷ node 16 0x00 0
      ∷ node 19 0x00 0
      ∷ node 25 0x00 0
      ∷ node 28 0x00 0
      ∷ node 32 0x00 0
      ∷ node 35 0x00 0
      ∷ node 42 0x00 0
      ∷ node 49 0x00 0
      ∷ node 57 0x00 0
      ∷ node 64 0x01 0
      ∷ [])
    ∷ (node 0 0x03 48
        ∷ node 0 0x03 49
        ∷ node 0 0x03 50
        ∷ node 0 0x03 97
        ∷ node 0 0x03 99
        ∷ node 0 0x03 101
        ∷ node 0 0x03 105
        ∷ node 0 0x03 111
        ∷ node 0 0x03 115
        ∷ node 0 0x03 116
        ∷ node 13 0x00 0
        ∷ node 14 0x00 0
        ∷ node 17 0x00 0
        ∷ node 18 0x00 0
        ∷ node 20 0x00 0
        ∷ node 21 0x00 0
        ∷ [])
    ∷ (node 1 0x02 48
        ∷ node 22 0x03 48
        ∷ node 1 0x02 49
        ∷ node 22 0x03 49
        ∷ node 1 0x02 50
        ∷ node 22 0x03 50
        ∷ node 1 0x02 97
        ∷ node 22 0x03 97
        ∷ node 1 0x02 99
        ∷ node 22 0x03 99
        ∷ node 1 0x02 101
        ∷ node 22 0x03 101
        ∷ node 1 0x02 105
        ∷ node 22 0x03 105
        ∷ node 1 0x02 111
        ∷ node 22 0x03 111
        ∷ [])
    ∷ (node 2 0x02 48
        ∷ node 9 0x02 48
        ∷ node 23 0x02 48
        ∷ node 40 0x03 48
        ∷ node 2 0x02 49
        ∷ node 9 0x02 49
        ∷ node 23 0x02 49
        ∷ node 40 0x03 49
        ∷ node 2 0x02 50
        ∷ node 9 0x02 50
        ∷ node 23 0x02 50
        ∷ node 40 0x03 50
        ∷ node 2 0x02 97
        ∷ node 9 0x02 97
        ∷ node 23 0x02 97
        ∷ node 40 0x03 97
        ∷ [])
    ∷ (node 3 0x02 48
        ∷ node 6 0x02 48
        ∷ node 10 0x02 48
        ∷ node 15 0x02 48
        ∷ node 24 0x02 48
        ∷ node 31 0x02 48
        ∷ node 41 0x02 48
        ∷ node 56 0x03 48
        ∷ node 3 0x02 49
        ∷ node 6 0x02 49
        ∷ node 10 0x02 49
        ∷ node 15 0x02 49
        ∷ node 24 0x02 49
        ∷ node 31 0x02 49
        ∷ node 41 0x02 49
        ∷ node 56 0x03 49
        ∷ [])
    ∷ (node 3 0x02 50
        ∷ node 6 0x02 50
        ∷ node 10 0x02 50
        ∷ node 15 0x02 50
        ∷ node 24 0x02 50
        ∷ node 31 0x02 50
        ∷ node 41 0x02 50
        ∷ node 56 0x03 50
        ∷ node 3 0x02 97
        ∷ node 6 0x02 97
        ∷ node 10 0x02 97
        ∷ node 15 0x02 97
        ∷ node 24 0x02 97
        ∷ node 31 0x02 97
        ∷ node 41 0x02 97
        ∷ node 56 0x03 97
        ∷ [])
    ∷ (node 2 0x02 99
        ∷ node 9 0x02 99
        ∷ node 23 0x02 99
        ∷ node 40 0x03 99
        ∷ node 2 0x02 101
        ∷ node 9 0x02 101
        ∷ node 23 0x02 101
        ∷ node 40 0x03 101
        ∷ node 2 0x02 105
        ∷ node 9 0x02 105
        ∷ node 23 0x02 105
        ∷ node 40 0x03 105
        ∷ node 2 0x02 111
        ∷ node 9 0x02 111
        ∷ node 23 0x02 111
        ∷ node 40 0x03 111
        ∷ [])
    ∷ (node 3 0x02 99
        ∷ node 6 0x02 99
        ∷ node 10 0x02 99
        ∷ node 15 0x02 99
        ∷ node 24 0x02 99
        ∷ node 31 0x02 99
        ∷ node 41 0x02 99
        ∷ node 56 0x03 99
        ∷ node 3 0x02 101
        ∷ node 6 0x02 101
        ∷ node 10 0x02 101
        ∷ node 15 0x02 101
        ∷ node 24 0x02 101
        ∷ node 31 0x02 101
        ∷ node 41 0x02 101
        ∷ node 56 0x03 101
        ∷ [])
    ∷ []
