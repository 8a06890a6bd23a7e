-- ===== src/Huffman/Decoding/Rows112.antt =====
-- bnl/http3/src/codec/qpack/huffman/decode_generated.cpp: the rows of `table` from 112 to 119.
use bnl.Prelude.{List, [], ◌∷◌}
use bnl.Huffman.Decoding.Entry.{Node, node}

unfoldable pub rows_112 : List (List Node)
rows_112 =
    (node 1 0x02 176
      ∷ node 22 0x03 176
      ∷ node 1 0x02 177
      ∷ node 22 0x03 177
      ∷ node 1 0x02 179
      ∷ node 22 0x03 179
      ∷ node 1 0x02 209
      ∷ node 22 0x03 209
      ∷ node 1 0x02 216
      ∷ node 22 0x03 216
      ∷ node 1 0x02 217
      ∷ node 22 0x03 217
      ∷ node 1 0x02 227
      ∷ node 22 0x03 227
      ∷ node 1 0x02 229
      ∷ node 22 0x03 229
      ∷ [])
    ∷ (node 2 0x02 176
        ∷ node 9 0x02 176
        ∷ node 23 0x02 176
        ∷ node 40 0x03 176
        ∷ node 2 0x02 177
        ∷ node 9 0x02 177
        ∷ node 23 0x02 177
        ∷ node 40 0x03 177
        ∷ node 2 0x02 179
        ∷ node 9 0x02 179
        ∷ node 23 0x02 179
        ∷ node 40 0x03 179
        ∷ node 2 0x02 209
        ∷ node 9 0x02 209
        ∷ node 23 0x02 209
        ∷ node 40 0x03 209
        ∷ [])
    ∷ (node 3 0x02 176
        ∷ node 6 0x02 176
        ∷ node 10 0x02 176
        ∷ node 15 0x02 176
        ∷ node 24 0x02 176
        ∷ node 31 0x02 176
        ∷ node 41 0x02 176
        ∷ node 56 0x03 176
        ∷ node 3 0x02 177
        ∷ node 6 0x02 177
        ∷ node 10 0x02 177
        ∷ node 15 0x02 177
        ∷ node 24 0x02 177
        ∷ node 31 0x02 177
        ∷ node 41 0x02 177
        ∷ node 56 0x03 177
        ∷ [])
    ∷ (node 3 0x02 179
        ∷ node 6 0x02 179
        ∷ node 10 0x02 179
        ∷ node 15 0x02 179
        ∷ node 24 0x02 179
        ∷ node 31 0x02 179
        ∷ node 41 0x02 179
        ∷ node 56 0x03 179
        ∷ node 3 0x02 209
        ∷ node 6 0x02 209
        ∷ node 10 0x02 209
        ∷ node 15 0x02 209
        ∷ node 24 0x02 209
        ∷ node 31 0x02 209
        ∷ node 41 0x02 209
        ∷ node 56 0x03 209
        ∷ [])
    ∷ (node 2 0x02 216
        ∷ node 9 0x02 216
        ∷ node 23 0x02 216
        ∷ node 40 0x03 216
        ∷ node 2 0x02 217
        ∷ node 9 0x02 217
        ∷ node 23 0x02 217
        ∷ node 40 0x03 217
        ∷ node 2 0x02 227
        ∷ node 9 0x02 227
        ∷ node 23 0x02 227
        ∷ node 40 0x03 227
        ∷ node 2 0x02 229
        ∷ node 9 0x02 229
        ∷ node 23 0x02 229
        ∷ node 40 0x03 229
        ∷ [])
    ∷ (node 3 0x02 216
        ∷ node 6 0x02 216
        ∷ node 10 0x02 216
        ∷ node 15 0x02 216
        ∷ node 24 0x02 216
        ∷ node 31 0x02 216
        ∷ node 41 0x02 216
        ∷ node 56 0x03 216
        ∷ node 3 0x02 217
        ∷ node 6 0x02 217
        ∷ node 10 0x02 217
        ∷ node 15 0x02 217
        ∷ node 24 0x02 217
        ∷ node 31 0x02 217
        ∷ node 41 0x02 217
        ∷ node 56 0x03 217
        ∷ [])
    ∷ (node 3 0x02 227
        ∷ node 6 0x02 227
        ∷ node 10 0x02 227
        ∷ node 15 0x02 227
        ∷ node 24 0x02 227
        ∷ node 31 0x02 227
        ∷ node 41 0x02 227
        ∷ node 56 0x03 227
        ∷ node 3 0x02 229
        ∷ node 6 0x02 229
        ∷ node 10 0x02 229
        ∷ node 15 0x02 229
        ∷ node 24 0x02 229
        ∷ node 31 0x02 229
        ∷ node 41 0x02 229
        ∷ node 56 0x03 229
        ∷ [])
    ∷ (node 1 0x02 230
        ∷ node 22 0x03 230
        ∷ node 0 0x03 129
        ∷ node 0 0x03 132
        ∷ node 0 0x03 133
        ∷ node 0 0x03 134
        ∷ node 0 0x03 136
        ∷ node 0 0x03 146
        ∷ node 0 0x03 154
        ∷ node 0 0x03 156
        ∷ node 0 0x03 160
        ∷ node 0 0x03 163
        ∷ node 0 0x03 164
        ∷ node 0 0x03 169
        ∷ node 0 0x03 170
        ∷ node 0 0x03 173
        ∷ [])
    ∷ []
