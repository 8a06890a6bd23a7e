-- ===== src/Huffman/Decoding/Rows200.antt =====
-- bnl/http3/src/codec/qpack/huffman/decode_generated.cpp: the rows of `table` from 200 to 207.
use bnl.Prelude.{List, [], ◌∷◌}
use bnl.Huffman.Decoding.Entry.{Node, node}

unfoldable pub rows_200 : List (List Node)
rows_200 =
    (node 2 0x02 218
      ∷ node 9 0x02 218
      ∷ node 23 0x02 218
      ∷ node 40 0x03 218
      ∷ node 2 0x02 219
      ∷ node 9 0x02 219
      ∷ node 23 0x02 219
      ∷ node 40 0x03 219
      ∷ node 2 0x02 238
      ∷ node 9 0x02 238
      ∷ node 23 0x02 238
      ∷ node 40 0x03 238
      ∷ node 2 0x02 240
      ∷ node 9 0x02 240
      ∷ node 23 0x02 240
      ∷ node 40 0x03 240
      ∷ [])
    ∷ (node 3 0x02 218
        ∷ node 6 0x02 218
        ∷ node 10 0x02 218
        ∷ node 15 0x02 218
        ∷ node 24 0x02 218
        ∷ node 31 0x02 218
        ∷ node 41 0x02 218
        ∷ node 56 0x03 218
        ∷ node 3 0x02 219
        ∷ node 6 0x02 219
        ∷ node 10 0x02 219
        ∷ node 15 0x02 219
        ∷ node 24 0x02 219
        ∷ node 31 0x02 219
        ∷ node 41 0x02 219
        ∷ node 56 0x03 219
        ∷ [])
    ∷ (node 3 0x02 238
        ∷ node 6 0x02 238
        ∷ node 10 0x02 238
        ∷ node 15 0x02 238
        ∷ node 24 0x02 238
        ∷ node 31 0x02 238
        ∷ node 41 0x02 238
        ∷ node 56 0x03 238
        ∷ node 3 0x02 240
        ∷ node 6 0x02 240
        ∷ node 10 0x02 240
        ∷ node 15 0x02 240
        ∷ node 24 0x02 240
        ∷ node 31 0x02 240
        ∷ node 41 0x02 240
        ∷ node 56 0x03 240
        ∷ [])
    ∷ (node 2 0x02 242
        ∷ node 9 0x02 242
        ∷ node 23 0x02 242
        ∷ node 40 0x03 242
        ∷ node 2 0x02 243
        ∷ node 9 0x02 243
        ∷ node 23 0x02 243
        ∷ node 40 0x03 243
        ∷ node 2 0x02 255
        ∷ node 9 0x02 255
        ∷ node 23 0x02 255
        ∷ node 40 0x03 255
        ∷ node 1 0x02 203
        ∷ node 22 0x03 203
        ∷ node 1 0x02 204
        ∷ node 22 0x03 204
        ∷ [])
    ∷ (node 3 0x02 242
        ∷ node 6 0x02 242
        ∷ node 10 0x02 242
        ∷ node 15 0x02 242
        ∷ node 24 0x02 242
        ∷ node 31 0x02 242
        ∷ node 41 0x02 242
        ∷ node 56 0x03 242
        ∷ node 3 0x02 243
        ∷ node 6 0x02 243
        ∷ node 10 0x02 243
        ∷ node 15 0x02 243
        ∷ node 24 0x02 243
        ∷ node 31 0x02 243
        ∷ node 41 0x02 243
        ∷ node 56 0x03 243
        ∷ [])
    ∷ (node 3 0x02 255
        ∷ node 6 0x02 255
        ∷ node 10 0x02 255
        ∷ node 15 0x02 255
        ∷ node 24 0x02 255
        ∷ node 31 0x02 255
        ∷ node 41 0x02 255
        ∷ node 56 0x03 255
        ∷ node 2 0x02 203
        ∷ node 9 0x02 203
        ∷ node 23 0x02 203
        ∷ node 40 0x03 203
        ∷ node 2 0x02 204
        ∷ node 9 0x02 204
        ∷ node 23 0x02 204
        ∷ node 40 0x03 204
        ∷ [])
    ∷ (node 3 0x02 203
        ∷ node 6 0x02 203
        ∷ node 10 0x02 203
        ∷ node 15 0x02 203
        ∷ node 24 0x02 203
        ∷ node 31 0x02 203
        ∷ node 41 0x02 203
        ∷ node 56 0x03 203
        ∷ node 3 0x02 204
        ∷ node 6 0x02 204
        ∷ node 10 0x02 204
        ∷ node 15 0x02 204
        ∷ node 24 0x02 204
        ∷ node 31 0x02 204
        ∷ node 41 0x02 204
        ∷ node 56 0x03 204
        ∷ [])
    ∷ (node 211 0x00 0
        ∷ node 212 0x00 0
        ∷ node 214 0x00 0
        ∷ node 215 0x00 0
        ∷ node 218 0x00 0
        ∷ node 219 0x00 0
        ∷ node 221 0x00 0
        ∷ node 222 0x00 0
        ∷ node 226 0x00 0
        ∷ node 228 0x00 0
        ∷ node 232 0x00 0
        ∷ node 235 0x00 0
        ∷ node 240 0x00 0
        ∷ node 243 0x00 0
        ∷ node 247 0x00 0
        ∷ node 250 0x00 0
        ∷ [])
    ∷ []
