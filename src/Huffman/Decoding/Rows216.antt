-- ===== src/Huffman/Decoding/Rows216.antt =====
-- bnl/http3/src/codec/qpack/huffman/decode_generated.cpp: the rows of `table` from 216 to 223.
use bnl.Prelude.{List, [], ◌∷◌}
use bnl.Huffman.Decoding.Entry.{Node, node}

unfoldable pub rows_216 : List (List Node)
rows_216 =
    (node 1 0x02 245
      ∷ node 22 0x03 245
      ∷ node 1 0x02 246
      ∷ node 22 0x03 246
      ∷ node 1 0x02 247
      ∷ node 22 0x03 247
      ∷ node 1 0x02 248
      ∷ node 22 0x03 248
      ∷ node 1 0x02 250
      ∷ node 22 0x03 250
      ∷ node 1 0x02 251
      ∷ node 22 0x03 251
      ∷ node 1 0x02 252
      ∷ node 22 0x03 252
      ∷ node 1 0x02 253
      ∷ node 22 0x03 253
      ∷ [])
    ∷ (node 2 0x02 245
        ∷ node 9 0x02 245
        ∷ node 23 0x02 245
        ∷ node 40 0x03 245
        ∷ node 2 0x02 246
        ∷ node 9 0x02 246
        ∷ node 23 0x02 246
        ∷ node 40 0x03 246
        ∷ node 2 0x02 247
        ∷ node 9 0x02 247
        ∷ node 23 0x02 247
        ∷ node 40 0x03 247
        ∷ node 2 0x02 248
        ∷ node 9 0x02 248
        ∷ node 23 0x02 248
        ∷ node 40 0x03 248
        ∷ [])
    ∷ (node 3 0x02 245
        ∷ node 6 0x02 245
        ∷ node 10 0x02 245
        ∷ node 15 0x02 245
        ∷ node 24 0x02 245
        ∷ node 31 0x02 245
        ∷ node 41 0x02 245
        ∷ node 56 0x03 245
        ∷ node 3 0x02 246
        ∷ node 6 0x02 246
        ∷ node 10 0x02 246
        ∷ node 15 0x02 246
        ∷ node 24 0x02 246
        ∷ node 31 0x02 246
        ∷ node 41 0x02 246
        ∷ node 56 0x03 246
        ∷ [])
    ∷ (node 3 0x02 247
        ∷ node 6 0x02 247
        ∷ node 10 0x02 247
        ∷ node 15 0x02 247
        ∷ node 24 0x02 247
        ∷ node 31 0x02 247
        ∷ node 41 0x02 247
        ∷ node 56 0x03 247
        ∷ node 3 0x02 248
        ∷ node 6 0x02 248
        ∷ node 10 0x02 248
        ∷ node 15 0x02 248
        ∷ node 24 0x02 248
        ∷ node 31 0x02 248
        ∷ node 41 0x02 248
        ∷ node 56 0x03 248
        ∷ [])
    ∷ (node 2 0x02 250
        ∷ node 9 0x02 250
        ∷ node 23 0x02 250
        ∷ node 40 0x03 250
        ∷ node 2 0x02 251
        ∷ node 9 0x02 251
        ∷ node 23 0x02 251
        ∷ node 40 0x03 251
        ∷ node 2 0x02 252
        ∷ node 9 0x02 252
        ∷ node 23 0x02 252
        ∷ node 40 0x03 252
        ∷ node 2 0x02 253
        ∷ node 9 0x02 253
        ∷ node 23 0x02 253
        ∷ node 40 0x03 253
        ∷ [])
    ∷ (node 3 0x02 250
        ∷ node 6 0x02 250
        ∷ node 10 0x02 250
        ∷ node 15 0x02 250
        ∷ node 24 0x02 250
        ∷ node 31 0x02 250
        ∷ node 41 0x02 250
        ∷ node 56 0x03 250
        ∷ node 3 0x02 251
        ∷ node 6 0x02 251
        ∷ node 10 0x02 251
        ∷ node 15 0x02 251
        ∷ node 24 0x02 251
        ∷ node 31 0x02 251
        ∷ node 41 0x02 251
        ∷ node 56 0x03 251
        ∷ [])
    ∷ (node 3 0x02 252
        ∷ node 6 0x02 252
        ∷ node 10 0x02 252
        ∷ node 15 0x02 252
        ∷ node 24 0x02 252
        ∷ node 31 0x02 252
        ∷ node 41 0x02 252
        ∷ node 56 0x03 252
        ∷ node 3 0x02 253
        ∷ node 6 0x02 253
        ∷ node 10 0x02 253
        ∷ node 15 0x02 253
        ∷ node 24 0x02 253
        ∷ node 31 0x02 253
        ∷ node 41 0x02 253
        ∷ node 56 0x03 253
        ∷ [])
    ∷ (node 0 0x03 254
        ∷ node 227 0x00 0
        ∷ node 229 0x00 0
        ∷ node 230 0x00 0
        ∷ node 233 0x00 0
        ∷ node 234 0x00 0
        ∷ node 236 0x00 0
        ∷ node 237 0x00 0
        ∷ node 241 0x00 0
        ∷ node 242 0x00 0
        ∷ node 244 0x00 0
        ∷ node 245 0x00 0
        ∷ node 248 0x00 0
        ∷ node 249 0x00 0
        ∷ node 251 0x00 0
        ∷ node 252 0x00 0
        ∷ [])
    ∷ []
