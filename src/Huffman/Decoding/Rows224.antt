-- ===== src/Huffman/Decoding/Rows224.antt =====
-- bnl/http3/src/codec/qpack/huffman/decode_generated.cpp: the rows of `table` from 224 to 231.
use bnl.Prelude.{List, [], ◌∷◌}
use bnl.Huffman.Decoding.Entry.{Node, node}

unfoldable pub rows_224 : List (List Node)
rows_224 =
    (node 1 0x02 254
      ∷ node 22 0x03 254
      ∷ node 0 0x03 2
      ∷ node 0 0x03 3
      ∷ node 0 0x03 4
      ∷ node 0 0x03 5
      ∷ node 0 0x03 6
      ∷ node 0 0x03 7
      ∷ node 0 0x03 8
      ∷ node 0 0x03 11
      ∷ node 0 0x03 12
      ∷ node 0 0x03 14
      ∷ node 0 0x03 15
      ∷ node 0 0x03 16
      ∷ node 0 0x03 17
      ∷ node 0 0x03 18
      ∷ [])
    ∷ (node 2 0x02 254
        ∷ node 9 0x02 254
        ∷ node 23 0x02 254
        ∷ node 40 0x03 254
        ∷ node 1 0x02 2
        ∷ node 22 0x03 2
        ∷ node 1 0x02 3
        ∷ node 22 0x03 3
        ∷ node 1 0x02 4
        ∷ node 22 0x03 4
        ∷ node 1 0x02 5
        ∷ node 22 0x03 5
        ∷ node 1 0x02 6
        ∷ node 22 0x03 6
        ∷ node 1 0x02 7
        ∷ node 22 0x03 7
        ∷ [])
    ∷ (node 3 0x02 254
        ∷ node 6 0x02 254
        ∷ node 10 0x02 254
        ∷ node 15 0x02 254
        ∷ node 24 0x02 254
        ∷ node 31 0x02 254
        ∷ node 41 0x02 254
        ∷ node 56 0x03 254
        ∷ node 2 0x02 2
        ∷ node 9 0x02 2
        ∷ node 23 0x02 2
        ∷ node 40 0x03 2
        ∷ node 2 0x02 3
        ∷ node 9 0x02 3
        ∷ node 23 0x02 3
        ∷ node 40 0x03 3
        ∷ [])
    ∷ (node 3 0x02 2
        ∷ node 6 0x02 2
        ∷ node 10 0x02 2
        ∷ node 15 0x02 2
        ∷ node 24 0x02 2
        ∷ node 31 0x02 2
        ∷ node 41 0x02 2
        ∷ node 56 0x03 2
        ∷ node 3 0x02 3
        ∷ node 6 0x02 3
        ∷ node 10 0x02 3
        ∷ node 15 0x02 3
        ∷ node 24 0x02 3
        ∷ node 31 0x02 3
        ∷ node 41 0x02 3
        ∷ node 56 0x03 3
        ∷ [])
    ∷ (node 2 0x02 4
        ∷ node 9 0x02 4
        ∷ node 23 0x02 4
        ∷ node 40 0x03 4
        ∷ node 2 0x02 5
        ∷ node 9 0x02 5
        ∷ node 23 0x02 5
        ∷ node 40 0x03 5
        ∷ node 2 0x02 6
        ∷ node 9 0x02 6
        ∷ node 23 0x02 6
        ∷ node 40 0x03 6
        ∷ node 2 0x02 7
        ∷ node 9 0x02 7
        ∷ node 23 0x02 7
        ∷ node 40 0x03 7
        ∷ [])
    ∷ (node 3 0x02 4
        ∷ node 6 0x02 4
        ∷ node 10 0x02 4
        ∷ node 15 0x02 4
        ∷ node 24 0x02 4
        ∷ node 31 0x02 4
        ∷ node 41 0x02 4
        ∷ node 56 0x03 4
        ∷ node 3 0x02 5
        ∷ node 6 0x02 5
        ∷ node 10 0x02 5
        ∷ node 15 0x02 5
        ∷ node 24 0x02 5
        ∷ node 31 0x02 5
        ∷ node 41 0x02 5
        ∷ node 56 0x03 5
        ∷ [])
    ∷ (node 3 0x02 6
        ∷ node 6 0x02 6
        ∷ node 10 0x02 6
        ∷ node 15 0x02 6
        ∷ node 24 0x02 6
        ∷ node 31 0x02 6
        ∷ node 41 0x02 6
        ∷ node 56 0x03 6
        ∷ node 3 0x02 7
        ∷ node 6 0x02 7
        ∷ node 10 0x02 7
        ∷ node 15 0x02 7
        ∷ node 24 0x02 7
        ∷ node 31 0x02 7
        ∷ node 41 0x02 7
        ∷ node 56 0x03 7
        ∷ [])
    ∷ (node 1 0x02 8
        ∷ node 22 0x03 8
        ∷ node 1 0x02 11
        ∷ node 22 0x03 11
        ∷ node 1 0x02 12
        ∷ node 22 0x03 12
        ∷ node 1 0x02 14
        ∷ node 22 0x03 14
        ∷ node 1 0x02 15
        ∷ node 22 0x03 15
        ∷ node 1 0x02 16
        ∷ node 22 0x03 16
        ∷ node 1 0x02 17
        ∷ node 22 0x03 17
        ∷ node 1 0x02 18
        ∷ node 22 0x03 18
        ∷ [])
    ∷ []
