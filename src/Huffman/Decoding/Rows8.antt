-- ===== src/Huffman/Decoding/Rows8.antt =====
-- bnl/http3/src/codec/qpack/huffman/decode_generated.cpp: the rows of `table` from 8 to 15.
use bnl.Prelude.{List, [], ◌∷◌}
use bnl.Huffman.Decoding.Entry.{Node, node}

unfoldable pub rows_8 : List (List Node)
rows_8 =
    (node 3 0x02 105
      ∷ node 6 0x02 105
      ∷ node 10 0x02 105
      ∷ node 15 0x02 105
      ∷ node 24 0x02 105
      ∷ node 31 0x02 105
      ∷ node 41 0x02 105
      ∷ node 56 0x03 105
      ∷ node 3 0x02 111
      ∷ node 6 0x02 111
      ∷ node 10 0x02 111
      ∷ node 15 0x02 111
      ∷ node 24 0x02 111
      ∷ node 31 0x02 111
      ∷ node 41 0x02 111
      ∷ node 56 0x03 111
      ∷ [])
    ∷ (node 1 0x02 115
        ∷ node 22 0x03 115
        ∷ node 1 0x02 116
        ∷ node 22 0x03 116
        ∷ node 0 0x03 32
        ∷ node 0 0x03 37
        ∷ node 0 0x03 45
        ∷ node 0 0x03 46
        ∷ node 0 0x03 47
        ∷ node 0 0x03 51
        ∷ node 0 0x03 52
        ∷ node 0 0x03 53
        ∷ node 0 0x03 54
        ∷ node 0 0x03 55
        ∷ node 0 0x03 56
        ∷ node 0 0x03 57
        ∷ [])
    ∷ (node 2 0x02 115
        ∷ node 9 0x02 115
        ∷ node 23 0x02 115
        ∷ node 40 0x03 115
        ∷ node 2 0x02 116
        ∷ node 9 0x02 116
        ∷ node 23 0x02 116
        ∷ node 40 0x03 116
        ∷ node 1 0x02 32
        ∷ node 22 0x03 32
        ∷ node 1 0x02 37
        ∷ node 22 0x03 37
        ∷ node 1 0x02 45
        ∷ node 22 0x03 45
        ∷ node 1 0x02 46
        ∷ node 22 0x03 46
        ∷ [])
    ∷ (node 3 0x02 115
        ∷ node 6 0x02 115
        ∷ node 10 0x02 115
        ∷ node 15 0x02 115
        ∷ node 24 0x02 115
        ∷ node 31 0x02 115
        ∷ node 41 0x02 115
        ∷ node 56 0x03 115
        ∷ node 3 0x02 116
        ∷ node 6 0x02 116
        ∷ node 10 0x02 116
        ∷ node 15 0x02 116
        ∷ node 24 0x02 116
        ∷ node 31 0x02 116
        ∷ node 41 0x02 116
        ∷ node 56 0x03 116
        ∷ [])
    ∷ (node 2 0x02 32
        ∷ node 9 0x02 32
        ∷ node 23 0x02 32
        ∷ node 40 0x03 32
        ∷ node 2 0x02 37
        ∷ node 9 0x02 37
        ∷ node 23 0x02 37
        ∷ node 40 0x03 37
        ∷ node 2 0x02 45
        ∷ node 9 0x02 45
        ∷ node 23 0x02 45
        ∷ node 40 0x03 45
        ∷ node 2 0x02 46
        ∷ node 9 0x02 46
        ∷ node 23 0x02 46
        ∷ node 40 0x03 46
        ∷ [])
    ∷ (node 3 0x02 32
        ∷ node 6 0x02 32
        ∷ node 10 0x02 32
        ∷ node 15 0x02 32
        ∷ node 24 0x02 32
        ∷ node 31 0x02 32
        ∷ node 41 0x02 32
        ∷ node 56 0x03 32
        ∷ node 3 0x02 37
        ∷ node 6 0x02 37
        ∷ node 10 0x02 37
        ∷ node 15 0x02 37
        ∷ node 24 0x02 37
        ∷ node 31 0x02 37
        ∷ node 41 0x02 37
        ∷ node 56 0x03 37
        ∷ [])
    ∷ (node 3 0x02 45
        ∷ node 6 0x02 45
        ∷ node 10 0x02 45
        ∷ node 15 0x02 45
        ∷ node 24 0x02 45
        ∷ node 31 0x02 45
        ∷ node 41 0x02 45
        ∷ node 56 0x03 45
        ∷ node 3 0x02 46
        ∷ node 6 0x02 46
        ∷ node 10 0x02 46
        ∷ node 15 0x02 46
        ∷ node 24 0x02 46
        ∷ node 31 0x02 46
        ∷ node 41 0x02 46
        ∷ node 56 0x03 46
        ∷ [])
    ∷ (node 1 0x02 47
        ∷ node 22 0x03 47
        ∷ node 1 0x02 51
        ∷ node 22 0x03 51
        ∷ node 1 0x02 52
        ∷ node 22 0x03 52
        ∷ node 1 0x02 53
        ∷ node 22 0x03 53
        ∷ node 1 0x02 54
        ∷ node 22 0x03 54
        ∷ node 1 0x02 55
        ∷ node 22 0x03 55
        ∷ node 1 0x02 56
        ∷ node 22 0x03 56
        ∷ node 1 0x02 57
        ∷ node 22 0x03 57
        ∷ [])
    ∷ []
