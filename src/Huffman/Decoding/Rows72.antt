-- ===== src/Huffman/Decoding/Rows72.antt =====
-- bnl/http3/src/codec/qpack/huffman/decode_generated.cpp: the rows of `table` from 72 to 79.
use bnl.Prelude.{List, [], ◌∷◌}
use bnl.Huffman.Decoding.Entry.{Node, node}

unfoldable pub rows_72 : List (List Node)
rows_72 =
    (node 2 0x02 88
      ∷ node 9 0x02 88
      ∷ node 23 0x02 88
      ∷ node 40 0x03 88
      ∷ node 2 0x02 90
      ∷ node 9 0x02 90
      ∷ node 23 0x02 90
      ∷ node 40 0x03 90
      ∷ node 0 0x03 33
      ∷ node 0 0x03 34
      ∷ node 0 0x03 40
      ∷ node 0 0x03 41
      ∷ node 0 0x03 63
      ∷ node 80 0x00 0
      ∷ node 82 0x00 0
      ∷ node 84 0x00 0
      ∷ [])
    ∷ (node 3 0x02 88
        ∷ node 6 0x02 88
        ∷ node 10 0x02 88
        ∷ node 15 0x02 88
        ∷ node 24 0x02 88
        ∷ node 31 0x02 88
        ∷ node 41 0x02 88
        ∷ node 56 0x03 88
        ∷ node 3 0x02 90
        ∷ node 6 0x02 90
        ∷ node 10 0x02 90
        ∷ node 15 0x02 90
        ∷ node 24 0x02 90
        ∷ node 31 0x02 90
        ∷ node 41 0x02 90
        ∷ node 56 0x03 90
        ∷ [])
    ∷ (node 1 0x02 33
        ∷ node 22 0x03 33
        ∷ node 1 0x02 34
        ∷ node 22 0x03 34
        ∷ node 1 0x02 40
        ∷ node 22 0x03 40
        ∷ node 1 0x02 41
        ∷ node 22 0x03 41
        ∷ node 1 0x02 63
        ∷ node 22 0x03 63
        ∷ node 0 0x03 39
        ∷ node 0 0x03 43
        ∷ node 0 0x03 124
        ∷ node 83 0x00 0
        ∷ node 85 0x00 0
        ∷ node 88 0x00 0
        ∷ [])
    ∷ (node 2 0x02 33
        ∷ node 9 0x02 33
        ∷ node 23 0x02 33
        ∷ node 40 0x03 33
        ∷ node 2 0x02 34
        ∷ node 9 0x02 34
        ∷ node 23 0x02 34
        ∷ node 40 0x03 34
        ∷ node 2 0x02 40
        ∷ node 9 0x02 40
        ∷ node 23 0x02 40
        ∷ node 40 0x03 40
        ∷ node 2 0x02 41
        ∷ node 9 0x02 41
        ∷ node 23 0x02 41
        ∷ node 40 0x03 41
        ∷ [])
    ∷ (node 3 0x02 33
        ∷ node 6 0x02 33
        ∷ node 10 0x02 33
        ∷ node 15 0x02 33
        ∷ node 24 0x02 33
        ∷ node 31 0x02 33
        ∷ node 41 0x02 33
        ∷ node 56 0x03 33
        ∷ node 3 0x02 34
        ∷ node 6 0x02 34
        ∷ node 10 0x02 34
        ∷ node 15 0x02 34
        ∷ node 24 0x02 34
        ∷ node 31 0x02 34
        ∷ node 41 0x02 34
        ∷ node 56 0x03 34
        ∷ [])
    ∷ (node 3 0x02 40
        ∷ node 6 0x02 40
        ∷ node 10 0x02 40
        ∷ node 15 0x02 40
        ∷ node 24 0x02 40
        ∷ node 31 0x02 40
        ∷ node 41 0x02 40
        ∷ node 56 0x03 40
        ∷ node 3 0x02 41
        ∷ node 6 0x02 41
        ∷ node 10 0x02 41
        ∷ node 15 0x02 41
        ∷ node 24 0x02 41
        ∷ node 31 0x02 41
        ∷ node 41 0x02 41
        ∷ node 56 0x03 41
        ∷ [])
    ∷ (node 2 0x02 63
        ∷ node 9 0x02 63
        ∷ node 23 0x02 63
        ∷ node 40 0x03 63
        ∷ node 1 0x02 39
        ∷ node 22 0x03 39
        ∷ node 1 0x02 43
        ∷ node 22 0x03 43
        ∷ node 1 0x02 124
        ∷ node 22 0x03 124
        ∷ node 0 0x03 35
        ∷ node 0 0x03 62
        ∷ node 86 0x00 0
        ∷ node 87 0x00 0
        ∷ node 89 0x00 0
        ∷ node 90 0x00 0
        ∷ [])
    ∷ (node 3 0x02 63
        ∷ node 6 0x02 63
        ∷ node 10 0x02 63
        ∷ node 15 0x02 63
        ∷ node 24 0x02 63
        ∷ node 31 0x02 63
        ∷ node 41 0x02 63
        ∷ node 56 0x03 63
        ∷ node 2 0x02 39
        ∷ node 9 0x02 39
        ∷ node 23 0x02 39
        ∷ node 40 0x03 39
        ∷ node 2 0x02 43
        ∷ node 9 0x02 43
        ∷ node 23 0x02 43
        ∷ node 40 0x03 43
        ∷ [])
    ∷ []
