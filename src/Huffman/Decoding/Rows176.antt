-- ===== src/Huffman/Decoding/Rows176.antt =====
-- bnl/http3/src/codec/qpack/huffman/decode_generated.cpp: the rows of `table` from 176 to 183.
use bnl.Prelude.{List, [], ◌∷◌}
use bnl.Huffman.Decoding.Entry.{Node, node}

unfoldable pub rows_176 : List (List Node)
rows_176 =
    (node 3 0x02 9
      ∷ node 6 0x02 9
      ∷ node 10 0x02 9
      ∷ node 15 0x02 9
      ∷ node 24 0x02 9
      ∷ node 31 0x02 9
      ∷ node 41 0x02 9
      ∷ node 56 0x03 9
      ∷ node 3 0x02 142
      ∷ node 6 0x02 142
      ∷ node 10 0x02 142
      ∷ node 15 0x02 142
      ∷ node 24 0x02 142
      ∷ node 31 0x02 142
      ∷ node 41 0x02 142
      ∷ node 56 0x03 142
      ∷ [])
    ∷ (node 2 0x02 144
        ∷ node 9 0x02 144
        ∷ node 23 0x02 144
        ∷ node 40 0x03 144
        ∷ node 2 0x02 145
        ∷ node 9 0x02 145
        ∷ node 23 0x02 145
        ∷ node 40 0x03 145
        ∷ node 2 0x02 148
        ∷ node 9 0x02 148
        ∷ node 23 0x02 148
        ∷ node 40 0x03 148
        ∷ node 2 0x02 159
        ∷ node 9 0x02 159
        ∷ node 23 0x02 159
        ∷ node 40 0x03 159
        ∷ [])
    ∷ (node 3 0x02 144
        ∷ node 6 0x02 144
        ∷ node 10 0x02 144
        ∷ node 15 0x02 144
        ∷ node 24 0x02 144
        ∷ node 31 0x02 144
        ∷ node 41 0x02 144
        ∷ node 56 0x03 144
        ∷ node 3 0x02 145
        ∷ node 6 0x02 145
        ∷ node 10 0x02 145
        ∷ node 15 0x02 145
        ∷ node 24 0x02 145
        ∷ node 31 0x02 145
        ∷ node 41 0x02 145
        ∷ node 56 0x03 145
        ∷ [])
    ∷ (node 3 0x02 148
        ∷ node 6 0x02 148
        ∷ node 10 0x02 148
        ∷ node 15 0x02 148
        ∷ node 24 0x02 148
        ∷ node 31 0x02 148
        ∷ node 41 0x02 148
        ∷ node 56 0x03 148
        ∷ node 3 0x02 159
        ∷ node 6 0x02 159
        ∷ node 10 0x02 159
        ∷ node 15 0x02 159
        ∷ node 24 0x02 159
        ∷ node 31 0x02 159
        ∷ node 41 0x02 159
        ∷ node 56 0x03 159
        ∷ [])
    ∷ (node 0 0x03 171
        ∷ node 0 0x03 206
        ∷ node 0 0x03 215
        ∷ node 0 0x03 225
        ∷ node 0 0x03 236
        ∷ node 0 0x03 237
        ∷ node 188 0x00 0
        ∷ node 189 0x00 0
        ∷ node 193 0x00 0
        ∷ node 196 0x00 0
        ∷ node 200 0x00 0
        ∷ node 203 0x00 0
        ∷ node 209 0x00 0
        ∷ node 216 0x00 0
        ∷ node 224 0x00 0
        ∷ node 238 0x00 0
        ∷ [])
    ∷ (node 1 0x02 171
        ∷ node 22 0x03 171
        ∷ node 1 0x02 206
        ∷ node 22 0x03 206
        ∷ node 1 0x02 215
        ∷ node 22 0x03 215
        ∷ node 1 0x02 225
        ∷ node 22 0x03 225
        ∷ node 1 0x02 236
        ∷ node 22 0x03 236
        ∷ node 1 0x02 237
        ∷ node 22 0x03 237
        ∷ node 0 0x03 199
        ∷ node 0 0x03 207
        ∷ node 0 0x03 234
        ∷ node 0 0x03 235
        ∷ [])
    ∷ (node 2 0x02 171
        ∷ node 9 0x02 171
        ∷ node 23 0x02 171
        ∷ node 40 0x03 171
        ∷ node 2 0x02 206
        ∷ node 9 0x02 206
        ∷ node 23 0x02 206
        ∷ node 40 0x03 206
        ∷ node 2 0x02 215
        ∷ node 9 0x02 215
        ∷ node 23 0x02 215
        ∷ node 40 0x03 215
        ∷ node 2 0x02 225
        ∷ node 9 0x02 225
        ∷ node 23 0x02 225
        ∷ node 40 0x03 225
        ∷ [])
    ∷ (node 3 0x02 171
        ∷ node 6 0x02 171
        ∷ node 10 0x02 171
        ∷ node 15 0x02 171
        ∷ node 24 0x02 171
        ∷ node 31 0x02 171
        ∷ node 41 0x02 171
        ∷ node 56 0x03 171
        ∷ node 3 0x02 206
        ∷ node 6 0x02 206
        ∷ node 10 0x02 206
        ∷ node 15 0x02 206
        ∷ node 24 0x02 206
        ∷ node 31 0x02 206
        ∷ node 41 0x02 206
        ∷ node 56 0x03 206
        ∷ [])
    ∷ []
