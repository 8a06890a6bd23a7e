-- ===== src/Huffman/Decoding/Rows248.antt =====
-- bnl/http3/src/codec/qpack/huffman/decode_generated.cpp: the rows of `table` from 248 to 255.
use bnl.Prelude.{List, [], ◌∷◌}
use bnl.Huffman.Decoding.Entry.{Node, node}

unfoldable pub rows_248 : List (List Node)
rows_248 =
    (node 3 0x02 28
      ∷ node 6 0x02 28
      ∷ node 10 0x02 28
      ∷ node 15 0x02 28
      ∷ node 24 0x02 28
      ∷ node 31 0x02 28
      ∷ node 41 0x02 28
      ∷ node 56 0x03 28
      ∷ node 3 0x02 29
      ∷ node 6 0x02 29
      ∷ node 10 0x02 29
      ∷ node 15 0x02 29
      ∷ node 24 0x02 29
      ∷ node 31 0x02 29
      ∷ node 41 0x02 29
      ∷ node 56 0x03 29
      ∷ [])
    ∷ (node 3 0x02 30
        ∷ node 6 0x02 30
        ∷ node 10 0x02 30
        ∷ node 15 0x02 30
        ∷ node 24 0x02 30
        ∷ node 31 0x02 30
        ∷ node 41 0x02 30
        ∷ node 56 0x03 30
        ∷ node 3 0x02 31
        ∷ node 6 0x02 31
        ∷ node 10 0x02 31
        ∷ node 15 0x02 31
        ∷ node 24 0x02 31
        ∷ node 31 0x02 31
        ∷ node 41 0x02 31
        ∷ node 56 0x03 31
        ∷ [])
    ∷ (node 2 0x02 127
        ∷ node 9 0x02 127
        ∷ node 23 0x02 127
        ∷ node 40 0x03 127
        ∷ node 2 0x02 220
        ∷ node 9 0x02 220
        ∷ node 23 0x02 220
        ∷ node 40 0x03 220
        ∷ node 2 0x02 249
        ∷ node 9 0x02 249
        ∷ node 23 0x02 249
        ∷ node 40 0x03 249
        ∷ node 0 0x03 10
        ∷ node 0 0x03 13
        ∷ node 0 0x03 22
        ∷ node 0 0x04 0
        ∷ [])
    ∷ (node 3 0x02 127
        ∷ node 6 0x02 127
        ∷ node 10 0x02 127
        ∷ node 15 0x02 127
        ∷ node 24 0x02 127
        ∷ node 31 0x02 127
        ∷ node 41 0x02 127
        ∷ node 56 0x03 127
        ∷ node 3 0x02 220
        ∷ node 6 0x02 220
        ∷ node 10 0x02 220
        ∷ node 15 0x02 220
        ∷ node 24 0x02 220
        ∷ node 31 0x02 220
        ∷ node 41 0x02 220
        ∷ node 56 0x03 220
        ∷ [])
    ∷ (node 3 0x02 249
        ∷ node 6 0x02 249
        ∷ node 10 0x02 249
        ∷ node 15 0x02 249
        ∷ node 24 0x02 249
        ∷ node 31 0x02 249
        ∷ node 41 0x02 249
        ∷ node 56 0x03 249
        ∷ node 1 0x02 10
        ∷ node 22 0x03 10
        ∷ node 1 0x02 13
        ∷ node 22 0x03 13
        ∷ node 1 0x02 22
        ∷ node 22 0x03 22
        ∷ node 0 0x04 0
        ∷ node 0 0x04 0
        ∷ [])
    ∷ (node 2 0x02 10
        ∷ node 9 0x02 10
        ∷ node 23 0x02 10
        ∷ node 40 0x03 10
        ∷ node 2 0x02 13
        ∷ node 9 0x02 13
        ∷ node 23 0x02 13
        ∷ node 40 0x03 13
        ∷ node 2 0x02 22
        ∷ node 9 0x02 22
        ∷ node 23 0x02 22
        ∷ node 40 0x03 22
        ∷ node 0 0x04 0
        ∷ node 0 0x04 0
        ∷ node 0 0x04 0
        ∷ node 0 0x04 0
        ∷ [])
    ∷ (node 3 0x02 10
        ∷ node 6 0x02 10
        ∷ node 10 0x02 10
        ∷ node 15 0x02 10
        ∷ node 24 0x02 10
        ∷ node 31 0x02 10
        ∷ node 41 0x02 10
        ∷ node 56 0x03 10
        ∷ node 3 0x02 13
        ∷ node 6 0x02 13
        ∷ node 10 0x02 13
        ∷ node 15 0x02 13
        ∷ node 24 0x02 13
        ∷ node 31 0x02 13
        ∷ node 41 0x02 13
        ∷ node 56 0x03 13
        ∷ [])
    ∷ (node 3 0x02 22
        ∷ node 6 0x02 22
        ∷ node 10 0x02 22
        ∷ node 15 0x02 22
        ∷ node 24 0x02 22
        ∷ node 31 0x02 22
        ∷ node 41 0x02 22
        ∷ node 56 0x03 22
        ∷ node 0 0x04 0
        ∷ node 0 0x04 0
        ∷ node 0 0x04 0
        ∷ node 0 0x04 0
        ∷ node 0 0x04 0
        ∷ node 0 0x04 0
        ∷ node 0 0x04 0
        ∷ node 0 0x04 0
        ∷ [])
    ∷ []
