-- ===== src/Huffman/Decoding/Rows184.antt =====
-- bnl/http3/src/codec/qpack/huffman/decode_generated.cpp: the rows of `table` from 184 to 191.
use bnl.Prelude.{List, [], ◌∷◌}
use bnl.Huffman.Decoding.Entry.{Node, node}

unfoldable pub rows_184 : List (List Node)
rows_184 =
    (node 3 0x02 215
      ∷ node 6 0x02 215
      ∷ node 10 0x02 215
      ∷ node 15 0x02 215
      ∷ node 24 0x02 215
      ∷ node 31 0x02 215
      ∷ node 41 0x02 215
      ∷ node 56 0x03 215
      ∷ node 3 0x02 225
      ∷ node 6 0x02 225
      ∷ node 10 0x02 225
      ∷ node 15 0x02 225
      ∷ node 24 0x02 225
      ∷ node 31 0x02 225
      ∷ node 41 0x02 225
      ∷ node 56 0x03 225
      ∷ [])
    ∷ (node 2 0x02 236
        ∷ node 9 0x02 236
        ∷ node 23 0x02 236
        ∷ node 40 0x03 236
        ∷ node 2 0x02 237
        ∷ node 9 0x02 237
        ∷ node 23 0x02 237
        ∷ node 40 0x03 237
        ∷ node 1 0x02 199
        ∷ node 22 0x03 199
        ∷ node 1 0x02 207
        ∷ node 22 0x03 207
        ∷ node 1 0x02 234
        ∷ node 22 0x03 234
        ∷ node 1 0x02 235
        ∷ node 22 0x03 235
        ∷ [])
    ∷ (node 3 0x02 236
        ∷ node 6 0x02 236
        ∷ node 10 0x02 236
        ∷ node 15 0x02 236
        ∷ node 24 0x02 236
        ∷ node 31 0x02 236
        ∷ node 41 0x02 236
        ∷ node 56 0x03 236
        ∷ node 3 0x02 237
        ∷ node 6 0x02 237
        ∷ node 10 0x02 237
        ∷ node 15 0x02 237
        ∷ node 24 0x02 237
        ∷ node 31 0x02 237
        ∷ node 41 0x02 237
        ∷ node 56 0x03 237
        ∷ [])
    ∷ (node 2 0x02 199
        ∷ node 9 0x02 199
        ∷ node 23 0x02 199
        ∷ node 40 0x03 199
        ∷ node 2 0x02 207
        ∷ node 9 0x02 207
        ∷ node 23 0x02 207
        ∷ node 40 0x03 207
        ∷ node 2 0x02 234
        ∷ node 9 0x02 234
        ∷ node 23 0x02 234
        ∷ node 40 0x03 234
        ∷ node 2 0x02 235
        ∷ node 9 0x02 235
        ∷ node 23 0x02 235
        ∷ node 40 0x03 235
        ∷ [])
    ∷ (node 3 0x02 199
        ∷ node 6 0x02 199
        ∷ node 10 0x02 199
        ∷ node 15 0x02 199
        ∷ node 24 0x02 199
        ∷ node 31 0x02 199
        ∷ node 41 0x02 199
        ∷ node 56 0x03 199
        ∷ node 3 0x02 207
        ∷ node 6 0x02 207
        ∷ node 10 0x02 207
        ∷ node 15 0x02 207
        ∷ node 24 0x02 207
        ∷ node 31 0x02 207
        ∷ node 41 0x02 207
        ∷ node 56 0x03 207
        ∷ [])
    ∷ (node 3 0x02 234
        ∷ node 6 0x02 234
        ∷ node 10 0x02 234
        ∷ node 15 0x02 234
        ∷ node 24 0x02 234
        ∷ node 31 0x02 234
        ∷ node 41 0x02 234
        ∷ node 56 0x03 234
        ∷ node 3 0x02 235
        ∷ node 6 0x02 235
        ∷ node 10 0x02 235
        ∷ node 15 0x02 235
        ∷ node 24 0x02 235
        ∷ node 31 0x02 235
        ∷ node 41 0x02 235
        ∷ node 56 0x03 235
        ∷ [])
    ∷ (node 194 0x00 0
        ∷ node 195 0x00 0
        ∷ node 197 0x00 0
        ∷ node 198 0x00 0
        ∷ node 201 0x00 0
        ∷ node 202 0x00 0
        ∷ node 204 0x00 0
        ∷ node 205 0x00 0
        ∷ node 210 0x00 0
        ∷ node 213 0x00 0
        ∷ node 217 0x00 0
        ∷ node 220 0x00 0
        ∷ node 225 0x00 0
        ∷ node 231 0x00 0
        ∷ node 239 0x00 0
        ∷ node 246 0x00 0
        ∷ [])
    ∷ (node 0 0x03 192
        ∷ node 0 0x03 193
        ∷ node 0 0x03 200
        ∷ node 0 0x03 201
        ∷ node 0 0x03 202
        ∷ node 0 0x03 205
        ∷ node 0 0x03 210
        ∷ node 0 0x03 213
        ∷ node 0 0x03 218
        ∷ node 0 0x03 219
        ∷ node 0 0x03 238
        ∷ node 0 0x03 240
        ∷ node 0 0x03 242
        ∷ node 0 0x03 243
        ∷ node 0 0x03 255
        ∷ node 206 0x00 0
        ∷ [])
    ∷ []
