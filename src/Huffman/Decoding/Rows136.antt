-- ===== src/Huffman/Decoding/Rows136.antt =====
-- bnl/http3/src/codec/qpack/huffman/decode_generated.cpp: the rows of `table` from 136 to 143.
use bnl.Prelude.{List, [], ◌∷◌}
use bnl.Huffman.Decoding.Entry.{Node, node}

unfoldable pub rows_136 : List (List Node)
rows_136 =
    (node 2 0x02 178
      ∷ node 9 0x02 178
      ∷ node 23 0x02 178
      ∷ node 40 0x03 178
      ∷ node 2 0x02 181
      ∷ node 9 0x02 181
      ∷ node 23 0x02 181
      ∷ node 40 0x03 181
      ∷ node 2 0x02 185
      ∷ node 9 0x02 185
      ∷ node 23 0x02 185
      ∷ node 40 0x03 185
      ∷ node 2 0x02 186
      ∷ node 9 0x02 186
      ∷ node 23 0x02 186
      ∷ node 40 0x03 186
      ∷ [])
    ∷ (node 3 0x02 178
        ∷ node 6 0x02 178
        ∷ node 10 0x02 178
        ∷ node 15 0x02 178
        ∷ node 24 0x02 178
        ∷ node 31 0x02 178
        ∷ node 41 0x02 178
        ∷ node 56 0x03 178
        ∷ node 3 0x02 181
        ∷ node 6 0x02 181
        ∷ node 10 0x02 181
        ∷ node 15 0x02 181
        ∷ node 24 0x02 181
        ∷ node 31 0x02 181
        ∷ node 41 0x02 181
        ∷ node 56 0x03 181
        ∷ [])
    ∷ (node 3 0x02 185
        ∷ node 6 0x02 185
        ∷ node 10 0x02 185
        ∷ node 15 0x02 185
        ∷ node 24 0x02 185
        ∷ node 31 0x02 185
        ∷ node 41 0x02 185
        ∷ node 56 0x03 185
        ∷ node 3 0x02 186
        ∷ node 6 0x02 186
        ∷ node 10 0x02 186
        ∷ node 15 0x02 186
        ∷ node 24 0x02 186
        ∷ node 31 0x02 186
        ∷ node 41 0x02 186
        ∷ node 56 0x03 186
        ∷ [])
    ∷ (node 2 0x02 187
        ∷ node 9 0x02 187
        ∷ node 23 0x02 187
        ∷ node 40 0x03 187
        ∷ node 2 0x02 189
        ∷ node 9 0x02 189
        ∷ node 23 0x02 189
        ∷ node 40 0x03 189
        ∷ node 2 0x02 190
        ∷ node 9 0x02 190
        ∷ node 23 0x02 190
        ∷ node 40 0x03 190
        ∷ node 2 0x02 196
        ∷ node 9 0x02 196
        ∷ node 23 0x02 196
        ∷ node 40 0x03 196
        ∷ [])
    ∷ (node 3 0x02 187
        ∷ node 6 0x02 187
        ∷ node 10 0x02 187
        ∷ node 15 0x02 187
        ∷ node 24 0x02 187
        ∷ node 31 0x02 187
        ∷ node 41 0x02 187
        ∷ node 56 0x03 187
        ∷ node 3 0x02 189
        ∷ node 6 0x02 189
        ∷ node 10 0x02 189
        ∷ node 15 0x02 189
        ∷ node 24 0x02 189
        ∷ node 31 0x02 189
        ∷ node 41 0x02 189
        ∷ node 56 0x03 189
        ∷ [])
    ∷ (node 3 0x02 190
        ∷ node 6 0x02 190
        ∷ node 10 0x02 190
        ∷ node 15 0x02 190
        ∷ node 24 0x02 190
        ∷ node 31 0x02 190
        ∷ node 41 0x02 190
        ∷ node 56 0x03 190
        ∷ node 3 0x02 196
        ∷ node 6 0x02 196
        ∷ node 10 0x02 196
        ∷ node 15 0x02 196
        ∷ node 24 0x02 196
        ∷ node 31 0x02 196
        ∷ node 41 0x02 196
        ∷ node 56 0x03 196
        ∷ [])
    ∷ (node 1 0x02 198
        ∷ node 22 0x03 198
        ∷ node 1 0x02 228
        ∷ node 22 0x03 228
        ∷ node 1 0x02 232
        ∷ node 22 0x03 232
        ∷ node 1 0x02 233
        ∷ node 22 0x03 233
        ∷ node 0 0x03 1
        ∷ node 0 0x03 135
        ∷ node 0 0x03 137
        ∷ node 0 0x03 138
        ∷ node 0 0x03 139
        ∷ node 0 0x03 140
        ∷ node 0 0x03 141
        ∷ node 0 0x03 143
        ∷ [])
    ∷ (node 2 0x02 198
        ∷ node 9 0x02 198
        ∷ node 23 0x02 198
        ∷ node 40 0x03 198
        ∷ node 2 0x02 228
        ∷ node 9 0x02 228
        ∷ node 23 0x02 228
        ∷ node 40 0x03 228
        ∷ node 2 0x02 232
        ∷ node 9 0x02 232
        ∷ node 23 0x02 232
        ∷ node 40 0x03 232
        ∷ node 2 0x02 233
        ∷ node 9 0x02 233
        ∷ node 23 0x02 233
        ∷ node 40 0x03 233
        ∷ [])
    ∷ []
