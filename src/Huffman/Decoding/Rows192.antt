-- ===== src/Huffman/Decoding/Rows192.antt =====
-- bnl/http3/src/codec/qpack/huffman/decode_generated.cpp: the rows of `table` from 192 to 199.
use bnl.Prelude.{List, [], ◌∷◌}
use bnl.Huffman.Decoding.Entry.{Node, node}

unfoldable pub rows_192 : List (List Node)
rows_192 =
    (node 1 0x02 192
      ∷ node 22 0x03 192
      ∷ node 1 0x02 193
      ∷ node 22 0x03 193
      ∷ node 1 0x02 200
      ∷ node 22 0x03 200
      ∷ node 1 0x02 201
      ∷ node 22 0x03 201
      ∷ node 1 0x02 202
      ∷ node 22 0x03 202
      ∷ node 1 0x02 205
      ∷ node 22 0x03 205
      ∷ node 1 0x02 210
      ∷ node 22 0x03 210
      ∷ node 1 0x02 213
      ∷ node 22 0x03 213
      ∷ [])
    ∷ (node 2 0x02 192
        ∷ node 9 0x02 192
        ∷ node 23 0x02 192
        ∷ node 40 0x03 192
        ∷ node 2 0x02 193
        ∷ node 9 0x02 193
        ∷ node 23 0x02 193
        ∷ node 40 0x03 193
        ∷ node 2 0x02 200
        ∷ node 9 0x02 200
        ∷ node 23 0x02 200
        ∷ node 40 0x03 200
        ∷ node 2 0x02 201
        ∷ node 9 0x02 201
        ∷ node 23 0x02 201
        ∷ node 40 0x03 201
        ∷ [])
    ∷ (node 3 0x02 192
        ∷ node 6 0x02 192
        ∷ node 10 0x02 192
        ∷ node 15 0x02 192
        ∷ node 24 0x02 192
        ∷ node 31 0x02 192
        ∷ node 41 0x02 192
        ∷ node 56 0x03 192
        ∷ node 3 0x02 193
        ∷ node 6 0x02 193
        ∷ node 10 0x02 193
        ∷ node 15 0x02 193
        ∷ node 24 0x02 193
        ∷ node 31 0x02 193
        ∷ node 41 0x02 193
        ∷ node 56 0x03 193
        ∷ [])
    ∷ (node 3 0x02 200
        ∷ node 6 0x02 200
        ∷ node 10 0x02 200
        ∷ node 15 0x02 200
        ∷ node 24 0x02 200
        ∷ node 31 0x02 200
        ∷ node 41 0x02 200
        ∷ node 56 0x03 200
        ∷ node 3 0x02 201
        ∷ node 6 0x02 201
        ∷ node 10 0x02 201
        ∷ node 15 0x02 201
        ∷ node 24 0x02 201
        ∷ node 31 0x02 201
        ∷ node 41 0x02 201
        ∷ node 56 0x03 201
        ∷ [])
    ∷ (node 2 0x02 202
        ∷ node 9 0x02 202
        ∷ node 23 0x02 202
        ∷ node 40 0x03 202
        ∷ node 2 0x02 205
        ∷ node 9 0x02 205
        ∷ node 23 0x02 205
        ∷ node 40 0x03 205
        ∷ node 2 0x02 210
        ∷ node 9 0x02 210
        ∷ node 23 0x02 210
        ∷ node 40 0x03 210
        ∷ node 2 0x02 213
        ∷ node 9 0x02 213
        ∷ node 23 0x02 213
        ∷ node 40 0x03 213
        ∷ [])
    ∷ (node 3 0x02 202
        ∷ node 6 0x02 202
        ∷ node 10 0x02 202
        ∷ node 15 0x02 202
        ∷ node 24 0x02 202
        ∷ node 31 0x02 202
        ∷ node 41 0x02 202
        ∷ node 56 0x03 202
        ∷ node 3 0x02 205
        ∷ node 6 0x02 205
        ∷ node 10 0x02 205
        ∷ node 15 0x02 205
        ∷ node 24 0x02 205
        ∷ node 31 0x02 205
        ∷ node 41 0x02 205
        ∷ node 56 0x03 205
        ∷ [])
    ∷ (node 3 0x02 210
        ∷ node 6 0x02 210
        ∷ node 10 0x02 210
        ∷ node 15 0x02 210
        ∷ node 24 0x02 210
        ∷ node 31 0x02 210
        ∷ node 41 0x02 210
        ∷ node 56 0x03 210
        ∷ node 3 0x02 213
        ∷ node 6 0x02 213
        ∷ node 10 0x02 213
        ∷ node 15 0x02 213
        ∷ node 24 0x02 213
        ∷ node 31 0x02 213
        ∷ node 41 0x02 213
        ∷ node 56 0x03 213
        ∷ [])
    ∷ (node 1 0x02 218
        ∷ node 22 0x03 218
        ∷ node 1 0x02 219
        ∷ node 22 0x03 219
        ∷ node 1 0x02 238
        ∷ node 22 0x03 238
        ∷ node 1 0x02 240
        ∷ node 22 0x03 240
        ∷ node 1 0x02 242
        ∷ node 22 0x03 242
        ∷ node 1 0x02 243
        ∷ node 22 0x03 243
        ∷ node 1 0x02 255
        ∷ node 22 0x03 255
        ∷ node 0 0x03 203
        ∷ node 0 0x03 204
        ∷ [])
    ∷ []
