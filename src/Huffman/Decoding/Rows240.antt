-- ===== src/Huffman/Decoding/Rows240.antt =====
-- bnl/http3/src/codec/qpack/huffman/decode_generated.cpp: the rows of `table` from 240 to 247.
use bnl.Prelude.{List, [], ◌∷◌}
use bnl.Huffman.Decoding.Entry.{Node, node}

unfoldable pub rows_240 : List (List Node)
rows_240 =
    (node 2 0x02 19
      ∷ node 9 0x02 19
      ∷ node 23 0x02 19
      ∷ node 40 0x03 19
      ∷ node 2 0x02 20
      ∷ node 9 0x02 20
      ∷ node 23 0x02 20
      ∷ node 40 0x03 20
      ∷ node 2 0x02 21
      ∷ node 9 0x02 21
      ∷ node 23 0x02 21
      ∷ node 40 0x03 21
      ∷ node 2 0x02 23
      ∷ node 9 0x02 23
      ∷ node 23 0x02 23
      ∷ node 40 0x03 23
      ∷ [])
    ∷ (node 3 0x02 19
        ∷ node 6 0x02 19
        ∷ node 10 0x02 19
        ∷ node 15 0x02 19
        ∷ node 24 0x02 19
        ∷ node 31 0x02 19
        ∷ node 41 0x02 19
        ∷ node 56 0x03 19
        ∷ node 3 0x02 20
        ∷ node 6 0x02 20
        ∷ node 10 0x02 20
        ∷ node 15 0x02 20
        ∷ node 24 0x02 20
        ∷ node 31 0x02 20
        ∷ node 41 0x02 20
        ∷ node 56 0x03 20
        ∷ [])
    ∷ (node 3 0x02 21
        ∷ node 6 0x02 21
        ∷ node 10 0x02 21
        ∷ node 15 0x02 21
        ∷ node 24 0x02 21
        ∷ node 31 0x02 21
        ∷ node 41 0x02 21
        ∷ node 56 0x03 21
        ∷ node 3 0x02 23
        ∷ node 6 0x02 23
        ∷ node 10 0x02 23
        ∷ node 15 0x02 23
        ∷ node 24 0x02 23
        ∷ node 31 0x02 23
        ∷ node 41 0x02 23
        ∷ node 56 0x03 23
        ∷ [])
    ∷ (node 2 0x02 24
        ∷ node 9 0x02 24
        ∷ node 23 0x02 24
        ∷ node 40 0x03 24
        ∷ node 2 0x02 25
        ∷ node 9 0x02 25
        ∷ node 23 0x02 25
        ∷ node 40 0x03 25
        ∷ node 2 0x02 26
        ∷ node 9 0x02 26
        ∷ node 23 0x02 26
        ∷ node 40 0x03 26
        ∷ node 2 0x02 27
        ∷ node 9 0x02 27
        ∷ node 23 0x02 27
        ∷ node 40 0x03 27
        ∷ [])
    ∷ (node 3 0x02 24
        ∷ node 6 0x02 24
        ∷ node 10 0x02 24
        ∷ node 15 0x02 24
        ∷ node 24 0x02 24
        ∷ node 31 0x02 24
        ∷ node 41 0x02 24
        ∷ node 56 0x03 24
        ∷ node 3 0x02 25
        ∷ node 6 0x02 25
        ∷ node 10 0x02 25
        ∷ node 15 0x02 25
        ∷ node 24 0x02 25
        ∷ node 31 0x02 25
        ∷ node 41 0x02 25
        ∷ node 56 0x03 25
        ∷ [])
    ∷ (node 3 0x02 26
        ∷ node 6 0x02 26
        ∷ node 10 0x02 26
        ∷ node 15 0x02 26
        ∷ node 24 0x02 26
        ∷ node 31 0x02 26
        ∷ node 41 0x02 26
        ∷ node 56 0x03 26
        ∷ node 3 0x02 27
        ∷ node 6 0x02 27
        ∷ node 10 0x02 27
        ∷ node 15 0x02 27
        ∷ node 24 0x02 27
        ∷ node 31 0x02 27
        ∷ node 41 0x02 27
        ∷ node 56 0x03 27
        ∷ [])
    ∷ (node 1 0x02 28
        ∷ node 22 0x03 28
        ∷ node 1 0x02 29
        ∷ node 22 0x03 29
        ∷ node 1 0x02 30
        ∷ node 22 0x03 30
        ∷ node 1 0x02 31
        ∷ node 22 0x03 31
        ∷ node 1 0x02 127
        ∷ node 22 0x03 127
        ∷ node 1 0x02 220
        ∷ node 22 0x03 220
        ∷ node 1 0x02 249
        ∷ node 22 0x03 249
        ∷ node 254 0x00 0
        ∷ node 255 0x00 0
        ∷ [])
    ∷ (node 2 0x02 28
        ∷ node 9 0x02 28
        ∷ node 23 0x02 28
        ∷ node 40 0x03 28
        ∷ node 2 0x02 29
        ∷ node 9 0x02 29
        ∷ node 23 0x02 29
        ∷ node 40 0x03 29
        ∷ node 2 0x02 30
        ∷ node 9 0x02 30
        ∷ node 23 0x02 30
        ∷ node 40 0x03 30
        ∷ node 2 0x02 31
        ∷ node 9 0x02 31
        ∷ node 23 0x02 31
        ∷ node 40 0x03 31
        ∷ [])
    ∷ []
