-- ===== src/Huffman/Decoding/Rows232.antt =====
-- bnl/http3/src/codec/qpack/huffman/decode_generated.cpp: the rows of `table` from 232 to 239.
use bnl.Prelude.{List, [], ◌∷◌}
use bnl.Huffman.Decoding.Entry.{Node, node}

unfoldable pub rows_232 : List (List Node)
rows_232 =
    (node 2 0x02 8
      ∷ node 9 0x02 8
      ∷ node 23 0x02 8
      ∷ node 40 0x03 8
      ∷ node 2 0x02 11
      ∷ node 9 0x02 11
      ∷ node 23 0x02 11
      ∷ node 40 0x03 11
      ∷ node 2 0x02 12
      ∷ node 9 0x02 12
      ∷ node 23 0x02 12
      ∷ node 40 0x03 12
      ∷ node 2 0x02 14
      ∷ node 9 0x02 14
      ∷ node 23 0x02 14
      ∷ node 40 0x03 14
      ∷ [])
    ∷ (node 3 0x02 8
        ∷ node 6 0x02 8
        ∷ node 10 0x02 8
        ∷ node 15 0x02 8
        ∷ node 24 0x02 8
        ∷ node 31 0x02 8
        ∷ node 41 0x02 8
        ∷ node 56 0x03 8
        ∷ node 3 0x02 11
        ∷ node 6 0x02 11
        ∷ node 10 0x02 11
        ∷ node 15 0x02 11
        ∷ node 24 0x02 11
        ∷ node 31 0x02 11
        ∷ node 41 0x02 11
        ∷ node 56 0x03 11
        ∷ [])
    ∷ (node 3 0x02 12
        ∷ node 6 0x02 12
        ∷ node 10 0x02 12
        ∷ node 15 0x02 12
        ∷ node 24 0x02 12
        ∷ node 31 0x02 12
        ∷ node 41 0x02 12
        ∷ node 56 0x03 12
        ∷ node 3 0x02 14
        ∷ node 6 0x02 14
        ∷ node 10 0x02 14
        ∷ node 15 0x02 14
        ∷ node 24 0x02 14
        ∷ node 31 0x02 14
        ∷ node 41 0x02 14
        ∷ node 56 0x03 14
        ∷ [])
    ∷ (node 2 0x02 15
        ∷ node 9 0x02 15
        ∷ node 23 0x02 15
        ∷ node 40 0x03 15
        ∷ node 2 0x02 16
        ∷ node 9 0x02 16
        ∷ node 23 0x02 16
        ∷ node 40 0x03 16
        ∷ node 2 0x02 17
        ∷ node 9 0x02 17
        ∷ node 23 0x02 17
        ∷ node 40 0x03 17
        ∷ node 2 0x02 18
        ∷ node 9 0x02 18
        ∷ node 23 0x02 18
        ∷ node 40 0x03 18
        ∷ [])
    ∷ (node 3 0x02 15
        ∷ node 6 0x02 15
        ∷ node 10 0x02 15
        ∷ node 15 0x02 15
        ∷ node 24 0x02 15
        ∷ node 31 0x02 15
        ∷ node 41 0x02 15
        ∷ node 56 0x03 15
        ∷ node 3 0x02 16
        ∷ node 6 0x02 16
        ∷ node 10 0x02 16
        ∷ node 15 0x02 16
        ∷ node 24 0x02 16
        ∷ node 31 0x02 16
        ∷ node 41 0x02 16
        ∷ node 56 0x03 16
        ∷ [])
    ∷ (node 3 0x02 17
        ∷ node 6 0x02 17
        ∷ node 10 0x02 17
        ∷ node 15 0x02 17
        ∷ node 24 0x02 17
        ∷ node 31 0x02 17
        ∷ node 41 0x02 17
        ∷ node 56 0x03 17
        ∷ node 3 0x02 18
        ∷ node 6 0x02 18
        ∷ node 10 0x02 18
        ∷ node 15 0x02 18
        ∷ node 24 0x02 18
        ∷ node 31 0x02 18
        ∷ node 41 0x02 18
        ∷ node 56 0x03 18
        ∷ [])
    ∷ (node 0 0x03 19
        ∷ node 0 0x03 20
        ∷ node 0 0x03 21
        ∷ node 0 0x03 23
        ∷ node 0 0x03 24
        ∷ node 0 0x03 25
        ∷ node 0 0x03 26
        ∷ node 0 0x03 27
        ∷ node 0 0x03 28
        ∷ node 0 0x03 29
        ∷ node 0 0x03 30
        ∷ node 0 0x03 31
        ∷ node 0 0x03 127
        ∷ node 0 0x03 220
        ∷ node 0 0x03 249
        ∷ node 253 0x00 0
        ∷ [])
    ∷ (node 1 0x02 19
        ∷ node 22 0x03 19
        ∷ node 1 0x02 20
        ∷ node 22 0x03 20
        ∷ node 1 0x02 21
        ∷ node 22 0x03 21
        ∷ node 1 0x02 23
        ∷ node 22 0x03 23
        ∷ node 1 0x02 24
        ∷ node 22 0x03 24
        ∷ node 1 0x02 25
        ∷ node 22 0x03 25
        ∷ node 1 0x02 26
        ∷ node 22 0x03 26
        ∷ node 1 0x02 27
        ∷ node 22 0x03 27
        ∷ [])
    ∷ []
