-- ===== src/Huffman/Decoding/Rows120.antt =====
-- bnl/http3/src/codec/qpack/huffman/decode_generated.cpp: the rows of `table` from 120 to 127.
use bnl.Prelude.{List, [], ◌∷◌}
use bnl.Huffman.Decoding.Entry.{Node, node}

unfoldable pub rows_120 : List (List Node)
rows_120 =
    (node 2 0x02 230
      ∷ node 9 0x02 230
      ∷ node 23 0x02 230
      ∷ node 40 0x03 230
      ∷ node 1 0x02 129
      ∷ node 22 0x03 129
      ∷ node 1 0x02 132
      ∷ node 22 0x03 132
      ∷ node 1 0x02 133
      ∷ node 22 0x03 133
      ∷ node 1 0x02 134
      ∷ node 22 0x03 134
      ∷ node 1 0x02 136
      ∷ node 22 0x03 136
      ∷ node 1 0x02 146
      ∷ node 22 0x03 146
      ∷ [])
    ∷ (node 3 0x02 230
        ∷ node 6 0x02 230
        ∷ node 10 0x02 230
        ∷ node 15 0x02 230
        ∷ node 24 0x02 230
        ∷ node 31 0x02 230
        ∷ node 41 0x02 230
        ∷ node 56 0x03 230
        ∷ node 2 0x02 129
        ∷ node 9 0x02 129
        ∷ node 23 0x02 129
        ∷ node 40 0x03 129
        ∷ node 2 0x02 132
        ∷ node 9 0x02 132
        ∷ node 23 0x02 132
        ∷ node 40 0x03 132
        ∷ [])
    ∷ (node 3 0x02 129
        ∷ node 6 0x02 129
        ∷ node 10 0x02 129
        ∷ node 15 0x02 129
        ∷ node 24 0x02 129
        ∷ node 31 0x02 129
        ∷ node 41 0x02 129
        ∷ node 56 0x03 129
        ∷ node 3 0x02 132
        ∷ node 6 0x02 132
        ∷ node 10 0x02 132
        ∷ node 15 0x02 132
        ∷ node 24 0x02 132
        ∷ node 31 0x02 132
        ∷ node 41 0x02 132
        ∷ node 56 0x03 132
        ∷ [])
    ∷ (node 2 0x02 133
        ∷ node 9 0x02 133
        ∷ node 23 0x02 133
        ∷ node 40 0x03 133
        ∷ node 2 0x02 134
        ∷ node 9 0x02 134
        ∷ node 23 0x02 134
        ∷ node 40 0x03 134
        ∷ node 2 0x02 136
        ∷ node 9 0x02 136
        ∷ node 23 0x02 136
        ∷ node 40 0x03 136
        ∷ node 2 0x02 146
        ∷ node 9 0x02 146
        ∷ node 23 0x02 146
        ∷ node 40 0x03 146
        ∷ [])
    ∷ (node 3 0x02 133
        ∷ node 6 0x02 133
        ∷ node 10 0x02 133
        ∷ node 15 0x02 133
        ∷ node 24 0x02 133
        ∷ node 31 0x02 133
        ∷ node 41 0x02 133
        ∷ node 56 0x03 133
        ∷ node 3 0x02 134
        ∷ node 6 0x02 134
        ∷ node 10 0x02 134
        ∷ node 15 0x02 134
        ∷ node 24 0x02 134
        ∷ node 31 0x02 134
        ∷ node 41 0x02 134
        ∷ node 56 0x03 134
        ∷ [])
    ∷ (node 3 0x02 136
        ∷ node 6 0x02 136
        ∷ node 10 0x02 136
        ∷ node 15 0x02 136
        ∷ node 24 0x02 136
        ∷ node 31 0x02 136
        ∷ node 41 0x02 136
        ∷ node 56 0x03 136
        ∷ node 3 0x02 146
        ∷ node 6 0x02 146
        ∷ node 10 0x02 146
        ∷ node 15 0x02 146
        ∷ node 24 0x02 146
        ∷ node 31 0x02 146
        ∷ node 41 0x02 146
        ∷ node 56 0x03 146
        ∷ [])
    ∷ (node 1 0x02 154
        ∷ node 22 0x03 154
        ∷ node 1 0x02 156
        ∷ node 22 0x03 156
        ∷ node 1 0x02 160
        ∷ node 22 0x03 160
        ∷ node 1 0x02 163
        ∷ node 22 0x03 163
        ∷ node 1 0x02 164
        ∷ node 22 0x03 164
        ∷ node 1 0x02 169
        ∷ node 22 0x03 169
        ∷ node 1 0x02 170
        ∷ node 22 0x03 170
        ∷ node 1 0x02 173
        ∷ node 22 0x03 173
        ∷ [])
    ∷ (node 2 0x02 154
        ∷ node 9 0x02 154
        ∷ node 23 0x02 154
        ∷ node 40 0x03 154
        ∷ node 2 0x02 156
        ∷ node 9 0x02 156
        ∷ node 23 0x02 156
        ∷ node 40 0x03 156
        ∷ node 2 0x02 160
        ∷ node 9 0x02 160
        ∷ node 23 0x02 160
        ∷ node 40 0x03 160
        ∷ node 2 0x02 163
        ∷ node 9 0x02 163
        ∷ node 23 0x02 163
        ∷ node 40 0x03 163
        ∷ [])
    ∷ []
