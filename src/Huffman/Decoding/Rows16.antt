-- ===== src/Huffman/Decoding/Rows16.antt =====
-- bnl/http3/src/codec/qpack/huffman/decode_generated.cpp: the rows of `table` from 16 to 23.
use bnl.Prelude.{List, [], ◌∷◌}
use bnl.Huffman.Decoding.Entry.{Node, node}

unfoldable pub rows_16 : List (List Node)
rows_16 =
    (node 2 0x02 47
      ∷ node 9 0x02 47
      ∷ node 23 0x02 47
      ∷ node 40 0x03 47
      ∷ node 2 0x02 51
      ∷ node 9 0x02 51
      ∷ node 23 0x02 51
      ∷ node 40 0x03 51
      ∷ node 2 0x02 52
      ∷ node 9 0x02 52
      ∷ node 23 0x02 52
      ∷ node 40 0x03 52
      ∷ node 2 0x02 53
      ∷ node 9 0x02 53
      ∷ node 23 0x02 53
      ∷ node 40 0x03 53
      ∷ [])
    ∷ (node 3 0x02 47
        ∷ node 6 0x02 47
        ∷ node 10 0x02 47
        ∷ node 15 0x02 47
        ∷ node 24 0x02 47
        ∷ node 31 0x02 47
        ∷ node 41 0x02 47
        ∷ node 56 0x03 47
        ∷ node 3 0x02 51
        ∷ node 6 0x02 51
        ∷ node 10 0x02 51
        ∷ node 15 0x02 51
        ∷ node 24 0x02 51
        ∷ node 31 0x02 51
        ∷ node 41 0x02 51
        ∷ node 56 0x03 51
        ∷ [])
    ∷ (node 3 0x02 52
        ∷ node 6 0x02 52
        ∷ node 10 0x02 52
        ∷ node 15 0x02 52
        ∷ node 24 0x02 52
        ∷ node 31 0x02 52
        ∷ node 41 0x02 52
        ∷ node 56 0x03 52
        ∷ node 3 0x02 53
        ∷ node 6 0x02 53
        ∷ node 10 0x02 53
        ∷ node 15 0x02 53
        ∷ node 24 0x02 53
        ∷ node 31 0x02 53
        ∷ node 41 0x02 53
        ∷ node 56 0x03 53
        ∷ [])
    ∷ (node 2 0x02 54
        ∷ node 9 0x02 54
        ∷ node 23 0x02 54
        ∷ node 40 0x03 54
        ∷ node 2 0x02 55
        ∷ node 9 0x02 55
        ∷ node 23 0x02 55
        ∷ node 40 0x03 55
        ∷ node 2 0x02 56
        ∷ node 9 0x02 56
        ∷ node 23 0x02 56
        ∷ node 40 0x03 56
        ∷ node 2 0x02 57
        ∷ node 9 0x02 57
        ∷ node 23 0x02 57
        ∷ node 40 0x03 57
        ∷ [])
    ∷ (node 3 0x02 54
        ∷ node 6 0x02 54
        ∷ node 10 0x02 54
        ∷ node 15 0x02 54
        ∷ node 24 0x02 54
        ∷ node 31 0x02 54
        ∷ node 41 0x02 54
        ∷ node 56 0x03 54
        ∷ node 3 0x02 55
        ∷ node 6 0x02 55
        ∷ node 10 0x02 55
        ∷ node 15 0x02 55
        ∷ node 24 0x02 55
        ∷ node 31 0x02 55
        ∷ node 41 0x02 55
        ∷ node 56 0x03 55
        ∷ [])
    ∷ (node 3 0x02 56
        ∷ node 6 0x02 56
        ∷ node 10 0x02 56
        ∷ node 15 0x02 56
        ∷ node 24 0x02 56
        ∷ node 31 0x02 56
        ∷ node 41 0x02 56
        ∷ node 56 0x03 56
        ∷ node 3 0x02 57
        ∷ node 6 0x02 57
        ∷ node 10 0x02 57
        ∷ node 15 0x02 57
        ∷ node 24 0x02 57
        ∷ node 31 0x02 57
        ∷ node 41 0x02 57
        ∷ node 56 0x03 57
        ∷ [])
    ∷ (node 26 0x00 0
        ∷ node 27 0x00 0
        ∷ node 29 0x00 0
        ∷ node 30 0x00 0
        ∷ node 33 0x00 0
        ∷ node 34 0x00 0
        ∷ node 36 0x00 0
        ∷ node 37 0x00 0
        ∷ node 43 0x00 0
        ∷ node 46 0x00 0
        ∷ node 50 0x00 0
        ∷ node 53 0x00 0
        ∷ node 58 0x00 0
        ∷ node 61 0x00 0
        ∷ node 65 0x00 0
        ∷ node 68 0x01 0
        ∷ [])
    ∷ (node 0 0x03 61
        ∷ node 0 0x03 65
        ∷ node 0 0x03 95
        ∷ node 0 0x03 98
        ∷ node 0 0x03 100
        ∷ node 0 0x03 102
        ∷ node 0 0x03 103
        ∷ node 0 0x03 104
        ∷ node 0 0x03 108
        ∷ node 0 0x03 109
        ∷ node 0 0x03 110
        ∷ node 0 0x03 112
        ∷ node 0 0x03 114
        ∷ node 0 0x03 117
        ∷ node 38 0x00 0
        ∷ node 39 0x00 0
        ∷ [])
    ∷ []
