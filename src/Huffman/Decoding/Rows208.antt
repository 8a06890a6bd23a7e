-- ===== src/Huffman/Decoding/Rows208.antt =====
-- bnl/http3/src/codec/qpack/huffman/decode_generated.cpp: the rows of `table` from 208 to 215.
use bnl.Prelude.{List, [], ◌∷◌}
use bnl.Huffman.Decoding.Entry.{Node, node}

unfoldable pub rows_208 : List (List Node)
rows_208 =
    (node 0 0x03 211
      ∷ node 0 0x03 212
      ∷ node 0 0x03 214
      ∷ node 0 0x03 221
      ∷ node 0 0x03 222
      ∷ node 0 0x03 223
      ∷ node 0 0x03 241
      ∷ node 0 0x03 244
      ∷ node 0 0x03 245
      ∷ node 0 0x03 246
      ∷ node 0 0x03 247
      ∷ node 0 0x03 248
      ∷ node 0 0x03 250
      ∷ node 0 0x03 251
      ∷ node 0 0x03 252
      ∷ node 0 0x03 253
      ∷ [])
    ∷ (node 1 0x02 211
        ∷ node 22 0x03 211
        ∷ node 1 0x02 212
        ∷ node 22 0x03 212
        ∷ node 1 0x02 214
        ∷ node 22 0x03 214
        ∷ node 1 0x02 221
        ∷ node 22 0x03 221
        ∷ node 1 0x02 222
        ∷ node 22 0x03 222
        ∷ node 1 0x02 223
        ∷ node 22 0x03 223
        ∷ node 1 0x02 241
        ∷ node 22 0x03 241
        ∷ node 1 0x02 244
        ∷ node 22 0x03 244
        ∷ [])
    ∷ (node 2 0x02 211
        ∷ node 9 0x02 211
        ∷ node 23 0x02 211
        ∷ node 40 0x03 211
        ∷ node 2 0x02 212
        ∷ node 9 0x02 212
        ∷ node 23 0x02 212
        ∷ node 40 0x03 212
        ∷ node 2 0x02 214
        ∷ node 9 0x02 214
        ∷ node 23 0x02 214
        ∷ node 40 0x03 214
        ∷ node 2 0x02 221
        ∷ node 9 0x02 221
        ∷ node 23 0x02 221
        ∷ node 40 0x03 221
        ∷ [])
    ∷ (node 3 0x02 211
        ∷ node 6 0x02 211
        ∷ node 10 0x02 211
        ∷ node 15 0x02 211
        ∷ node 24 0x02 211
        ∷ node 31 0x02 211
        ∷ node 41 0x02 211
        ∷ node 56 0x03 211
        ∷ node 3 0x02 212
        ∷ node 6 0x02 212
        ∷ node 10 0x02 212
        ∷ node 15 0x02 212
        ∷ node 24 0x02 212
        ∷ node 31 0x02 212
        ∷ node 41 0x02 212
        ∷ node 56 0x03 212
        ∷ [])
    ∷ (node 3 0x02 214
        ∷ node 6 0x02 214
        ∷ node 10 0x02 214
        ∷ node 15 0x02 214
        ∷ node 24 0x02 214
        ∷ node 31 0x02 214
        ∷ node 41 0x02 214
        ∷ node 56 0x03 214
        ∷ node 3 0x02 221
        ∷ node 6 0x02 221
        ∷ node 10 0x02 221
        ∷ node 15 0x02 221
        ∷ node 24 0x02 221
        ∷ node 31 0x02 221
        ∷ node 41 0x02 221
        ∷ node 56 0x03 221
        ∷ [])
    ∷ (node 2 0x02 222
        ∷ node 9 0x02 222
        ∷ node 23 0x02 222
        ∷ node 40 0x03 222
        ∷ node 2 0x02 223
        ∷ node 9 0x02 223
        ∷ node 23 0x02 223
        ∷ node 40 0x03 223
        ∷ node 2 0x02 241
        ∷ node 9 0x02 241
        ∷ node 23 0x02 241
        ∷ node 40 0x03 241
        ∷ node 2 0x02 244
        ∷ node 9 0x02 244
        ∷ node 23 0x02 244
        ∷ node 40 0x03 244
        ∷ [])
    ∷ (node 3 0x02 222
        ∷ node 6 0x02 222
        ∷ node 10 0x02 222
        ∷ node 15 0x02 222
        ∷ node 24 0x02 222
        ∷ node 31 0x02 222
        ∷ node 41 0x02 222
        ∷ node 56 0x03 222
        ∷ node 3 0x02 223
        ∷ node 6 0x02 223
        ∷ node 10 0x02 223
        ∷ node 15 0x02 223
        ∷ node 24 0x02 223
        ∷ node 31 0x02 223
        ∷ node 41 0x02 223
        ∷ node 56 0x03 223
        ∷ [])
    ∷ (node 3 0x02 241
        ∷ node 6 0x02 241
        ∷ node 10 0x02 241
        ∷ node 15 0x02 241
        ∷ node 24 0x02 241
        ∷ node 31 0x02 241
        ∷ node 41 0x02 241
        ∷ node 56 0x03 241
        ∷ node 3 0x02 244
        ∷ node 6 0x02 244
        ∷ node 10 0x02 244
        ∷ node 15 0x02 244
        ∷ node 24 0x02 244
        ∷ node 31 0x02 244
        ∷ node 41 0x02 244
        ∷ node 56 0x03 244
        ∷ [])
    ∷ []
