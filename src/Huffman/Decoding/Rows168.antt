-- ===== src/Huffman/Decoding/Rows168.antt =====
-- bnl/http3/src/codec/qpack/huffman/decode_generated.cpp: the rows of `table` from 168 to 175.
use bnl.Prelude.{List, [], ◌∷◌}
use bnl.Huffman.Decoding.Entry.{Node, node}

unfoldable pub rows_168 : List (List Node)
rows_168 =
    (node 3 0x02 182
      ∷ node 6 0x02 182
      ∷ node 10 0x02 182
      ∷ node 15 0x02 182
      ∷ node 24 0x02 182
      ∷ node 31 0x02 182
      ∷ node 41 0x02 182
      ∷ node 56 0x03 182
      ∷ node 3 0x02 183
      ∷ node 6 0x02 183
      ∷ node 10 0x02 183
      ∷ node 15 0x02 183
      ∷ node 24 0x02 183
      ∷ node 31 0x02 183
      ∷ node 41 0x02 183
      ∷ node 56 0x03 183
      ∷ [])
    ∷ (node 0 0x03 188
        ∷ node 0 0x03 191
        ∷ node 0 0x03 197
        ∷ node 0 0x03 231
        ∷ node 0 0x03 239
        ∷ node 176 0x00 0
        ∷ node 178 0x00 0
        ∷ node 179 0x00 0
        ∷ node 183 0x00 0
        ∷ node 184 0x00 0
        ∷ node 186 0x00 0
        ∷ node 187 0x00 0
        ∷ node 192 0x00 0
        ∷ node 199 0x00 0
        ∷ node 208 0x00 0
        ∷ node 223 0x00 0
        ∷ [])
    ∷ (node 1 0x02 188
        ∷ node 22 0x03 188
        ∷ node 1 0x02 191
        ∷ node 22 0x03 191
        ∷ node 1 0x02 197
        ∷ node 22 0x03 197
        ∷ node 1 0x02 231
        ∷ node 22 0x03 231
        ∷ node 1 0x02 239
        ∷ node 22 0x03 239
        ∷ node 0 0x03 9
        ∷ node 0 0x03 142
        ∷ node 0 0x03 144
        ∷ node 0 0x03 145
        ∷ node 0 0x03 148
        ∷ node 0 0x03 159
        ∷ [])
    ∷ (node 2 0x02 188
        ∷ node 9 0x02 188
        ∷ node 23 0x02 188
        ∷ node 40 0x03 188
        ∷ node 2 0x02 191
        ∷ node 9 0x02 191
        ∷ node 23 0x02 191
        ∷ node 40 0x03 191
        ∷ node 2 0x02 197
        ∷ node 9 0x02 197
        ∷ node 23 0x02 197
        ∷ node 40 0x03 197
        ∷ node 2 0x02 231
        ∷ node 9 0x02 231
        ∷ node 23 0x02 231
        ∷ node 40 0x03 231
        ∷ [])
    ∷ (node 3 0x02 188
        ∷ node 6 0x02 188
        ∷ node 10 0x02 188
        ∷ node 15 0x02 188
        ∷ node 24 0x02 188
        ∷ node 31 0x02 188
        ∷ node 41 0x02 188
        ∷ node 56 0x03 188
        ∷ node 3 0x02 191
        ∷ node 6 0x02 191
        ∷ node 10 0x02 191
        ∷ node 15 0x02 191
        ∷ node 24 0x02 191
        ∷ node 31 0x02 191
        ∷ node 41 0x02 191
        ∷ node 56 0x03 191
        ∷ [])
    ∷ (node 3 0x02 197
        ∷ node 6 0x02 197
        ∷ node 10 0x02 197
        ∷ node 15 0x02 197
        ∷ node 24 0x02 197
        ∷ node 31 0x02 197
        ∷ node 41 0x02 197
        ∷ node 56 0x03 197
        ∷ node 3 0x02 231
        ∷ node 6 0x02 231
        ∷ node 10 0x02 231
        ∷ node 15 0x02 231
        ∷ node 24 0x02 231
        ∷ node 31 0x02 231
        ∷ node 41 0x02 231
        ∷ node 56 0x03 231
        ∷ [])
    ∷ (node 2 0x02 239
        ∷ node 9 0x02 239
        ∷ node 23 0x02 239
        ∷ node 40 0x03 239
        ∷ node 1 0x02 9
        ∷ node 22 0x03 9
        ∷ node 1 0x02 142
        ∷ node 22 0x03 142
        ∷ node 1 0x02 144
        ∷ node 22 0x03 144
        ∷ node 1 0x02 145
        ∷ node 22 0x03 145
        ∷ node 1 0x02 148
        ∷ node 22 0x03 148
        ∷ node 1 0x02 159
        ∷ node 22 0x03 159
        ∷ [])
    ∷ (node 3 0x02 239
        ∷ node 6 0x02 239
        ∷ node 10 0x02 239
        ∷ node 15 0x02 239
        ∷ node 24 0x02 239
        ∷ node 31 0x02 239
        ∷ node 41 0x02 239
        ∷ node 56 0x03 239
        ∷ node 2 0x02 9
        ∷ node 9 0x02 9
        ∷ node 23 0x02 9
        ∷ node 40 0x03 9
        ∷ node 2 0x02 142
        ∷ node 9 0x02 142
        ∷ node 23 0x02 142
        ∷ node 40 0x03 142
        ∷ [])
    ∷ []
