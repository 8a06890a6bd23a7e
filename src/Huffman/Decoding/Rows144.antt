-- ===== src/Huffman/Decoding/Rows144.antt =====
-- bnl/http3/src/codec/qpack/huffman/decode_generated.cpp: the rows of `table` from 144 to 151.
use bnl.Prelude.{List, [], ◌∷◌}
use bnl.Huffman.Decoding.Entry.{Node, node}

unfoldable pub rows_144 : List (List Node)
rows_144 =
    (node 3 0x02 198
      ∷ node 6 0x02 198
      ∷ node 10 0x02 198
      ∷ node 15 0x02 198
      ∷ node 24 0x02 198
      ∷ node 31 0x02 198
      ∷ node 41 0x02 198
      ∷ node 56 0x03 198
      ∷ node 3 0x02 228
      ∷ node 6 0x02 228
      ∷ node 10 0x02 228
      ∷ node 15 0x02 228
      ∷ node 24 0x02 228
      ∷ node 31 0x02 228
      ∷ node 41 0x02 228
      ∷ node 56 0x03 228
      ∷ [])
    ∷ (node 3 0x02 232
        ∷ node 6 0x02 232
        ∷ node 10 0x02 232
        ∷ node 15 0x02 232
        ∷ node 24 0x02 232
        ∷ node 31 0x02 232
        ∷ node 41 0x02 232
        ∷ node 56 0x03 232
        ∷ node 3 0x02 233
        ∷ node 6 0x02 233
        ∷ node 10 0x02 233
        ∷ node 15 0x02 233
        ∷ node 24 0x02 233
        ∷ node 31 0x02 233
        ∷ node 41 0x02 233
        ∷ node 56 0x03 233
        ∷ [])
    ∷ (node 1 0x02 1
        ∷ node 22 0x03 1
        ∷ node 1 0x02 135
        ∷ node 22 0x03 135
        ∷ node 1 0x02 137
        ∷ node 22 0x03 137
        ∷ node 1 0x02 138
        ∷ node 22 0x03 138
        ∷ node 1 0x02 139
        ∷ node 22 0x03 139
        ∷ node 1 0x02 140
        ∷ node 22 0x03 140
        ∷ node 1 0x02 141
        ∷ node 22 0x03 141
        ∷ node 1 0x02 143
        ∷ node 22 0x03 143
        ∷ [])
    ∷ (node 2 0x02 1
        ∷ node 9 0x02 1
        ∷ node 23 0x02 1
        ∷ node 40 0x03 1
        ∷ node 2 0x02 135
        ∷ node 9 0x02 135
        ∷ node 23 0x02 135
        ∷ node 40 0x03 135
        ∷ node 2 0x02 137
        ∷ node 9 0x02 137
        ∷ node 23 0x02 137
        ∷ node 40 0x03 137
        ∷ node 2 0x02 138
        ∷ node 9 0x02 138
        ∷ node 23 0x02 138
        ∷ node 40 0x03 138
        ∷ [])
    ∷ (node 3 0x02 1
        ∷ node 6 0x02 1
        ∷ node 10 0x02 1
        ∷ node 15 0x02 1
        ∷ node 24 0x02 1
        ∷ node 31 0x02 1
        ∷ node 41 0x02 1
        ∷ node 56 0x03 1
        ∷ node 3 0x02 135
        ∷ node 6 0x02 135
        ∷ node 10 0x02 135
        ∷ node 15 0x02 135
        ∷ node 24 0x02 135
        ∷ node 31 0x02 135
        ∷ node 41 0x02 135
        ∷ node 56 0x03 135
        ∷ [])
    ∷ (node 3 0x02 137
        ∷ node 6 0x02 137
        ∷ node 10 0x02 137
        ∷ node 15 0x02 137
        ∷ node 24 0x02 137
        ∷ node 31 0x02 137
        ∷ node 41 0x02 137
        ∷ node 56 0x03 137
        ∷ node 3 0x02 138
        ∷ node 6 0x02 138
        ∷ node 10 0x02 138
        ∷ node 15 0x02 138
        ∷ node 24 0x02 138
        ∷ node 31 0x02 138
        ∷ node 41 0x02 138
        ∷ node 56 0x03 138
        ∷ [])
    ∷ (node 2 0x02 139
        ∷ node 9 0x02 139
        ∷ node 23 0x02 139
        ∷ node 40 0x03 139
        ∷ node 2 0x02 140
        ∷ node 9 0x02 140
        ∷ node 23 0x02 140
        ∷ node 40 0x03 140
        ∷ node 2 0x02 141
        ∷ node 9 0x02 141
        ∷ node 23 0x02 141
        ∷ node 40 0x03 141
        ∷ node 2 0x02 143
        ∷ node 9 0x02 143
        ∷ node 23 0x02 143
        ∷ node 40 0x03 143
        ∷ [])
    ∷ (node 3 0x02 139
        ∷ node 6 0x02 139
        ∷ node 10 0x02 139
        ∷ node 15 0x02 139
        ∷ node 24 0x02 139
        ∷ node 31 0x02 139
        ∷ node 41 0x02 139
        ∷ node 56 0x03 139
        ∷ node 3 0x02 140
        ∷ node 6 0x02 140
        ∷ node 10 0x02 140
        ∷ node 15 0x02 140
        ∷ node 24 0x02 140
        ∷ node 31 0x02 140
        ∷ node 41 0x02 140
        ∷ node 56 0x03 140
        ∷ [])
    ∷ []
