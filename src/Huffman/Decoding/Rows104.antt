-- ===== src/Huffman/Decoding/Rows104.antt =====
-- bnl/http3/src/codec/qpack/huffman/decode_generated.cpp: the rows of `table` from 104 to 111.
use bnl.Prelude.{List, [], ◌∷◌}
use bnl.Huffman.Decoding.Entry.{Node, node}

unfoldable pub rows_104 : List (List Node)
rows_104 =
    (node 3 0x02 184
      ∷ node 6 0x02 184
      ∷ node 10 0x02 184
      ∷ node 15 0x02 184
      ∷ node 24 0x02 184
      ∷ node 31 0x02 184
      ∷ node 41 0x02 184
      ∷ node 56 0x03 184
      ∷ node 3 0x02 194
      ∷ node 6 0x02 194
      ∷ node 10 0x02 194
      ∷ node 15 0x02 194
      ∷ node 24 0x02 194
      ∷ node 31 0x02 194
      ∷ node 41 0x02 194
      ∷ node 56 0x03 194
      ∷ [])
    ∷ (node 2 0x02 224
        ∷ node 9 0x02 224
        ∷ node 23 0x02 224
        ∷ node 40 0x03 224
        ∷ node 2 0x02 226
        ∷ node 9 0x02 226
        ∷ node 23 0x02 226
        ∷ node 40 0x03 226
        ∷ node 1 0x02 153
        ∷ node 22 0x03 153
        ∷ node 1 0x02 161
        ∷ node 22 0x03 161
        ∷ node 1 0x02 167
        ∷ node 22 0x03 167
        ∷ node 1 0x02 172
        ∷ node 22 0x03 172
        ∷ [])
    ∷ (node 3 0x02 224
        ∷ node 6 0x02 224
        ∷ node 10 0x02 224
        ∷ node 15 0x02 224
        ∷ node 24 0x02 224
        ∷ node 31 0x02 224
        ∷ node 41 0x02 224
        ∷ node 56 0x03 224
        ∷ node 3 0x02 226
        ∷ node 6 0x02 226
        ∷ node 10 0x02 226
        ∷ node 15 0x02 226
        ∷ node 24 0x02 226
        ∷ node 31 0x02 226
        ∷ node 41 0x02 226
        ∷ node 56 0x03 226
        ∷ [])
    ∷ (node 2 0x02 153
        ∷ node 9 0x02 153
        ∷ node 23 0x02 153
        ∷ node 40 0x03 153
        ∷ node 2 0x02 161
        ∷ node 9 0x02 161
        ∷ node 23 0x02 161
        ∷ node 40 0x03 161
        ∷ node 2 0x02 167
        ∷ node 9 0x02 167
        ∷ node 23 0x02 167
        ∷ node 40 0x03 167
        ∷ node 2 0x02 172
        ∷ node 9 0x02 172
        ∷ node 23 0x02 172
        ∷ node 40 0x03 172
        ∷ [])
    ∷ (node 3 0x02 153
        ∷ node 6 0x02 153
        ∷ node 10 0x02 153
        ∷ node 15 0x02 153
        ∷ node 24 0x02 153
        ∷ node 31 0x02 153
        ∷ node 41 0x02 153
        ∷ node 56 0x03 153
        ∷ node 3 0x02 161
        ∷ node 6 0x02 161
        ∷ node 10 0x02 161
        ∷ node 15 0x02 161
        ∷ node 24 0x02 161
        ∷ node 31 0x02 161
        ∷ node 41 0x02 161
        ∷ node 56 0x03 161
        ∷ [])
    ∷ (node 3 0x02 167
        ∷ node 6 0x02 167
        ∷ node 10 0x02 167
        ∷ node 15 0x02 167
        ∷ node 24 0x02 167
        ∷ node 31 0x02 167
        ∷ node 41 0x02 167
        ∷ node 56 0x03 167
        ∷ node 3 0x02 172
        ∷ node 6 0x02 172
        ∷ node 10 0x02 172
        ∷ node 15 0x02 172
        ∷ node 24 0x02 172
        ∷ node 31 0x02 172
        ∷ node 41 0x02 172
        ∷ node 56 0x03 172
        ∷ [])
    ∷ (node 114 0x00 0
        ∷ node 115 0x00 0
        ∷ node 117 0x00 0
        ∷ node 118 0x00 0
        ∷ node 121 0x00 0
        ∷ node 123 0x00 0
        ∷ node 127 0x00 0
        ∷ node 130 0x00 0
        ∷ node 136 0x00 0
        ∷ node 139 0x00 0
        ∷ node 143 0x00 0
        ∷ node 146 0x00 0
        ∷ node 155 0x00 0
        ∷ node 162 0x00 0
        ∷ node 170 0x00 0
        ∷ node 180 0x00 0
        ∷ [])
    ∷ (node 0 0x03 176
        ∷ node 0 0x03 177
        ∷ node 0 0x03 179
        ∷ node 0 0x03 209
        ∷ node 0 0x03 216
        ∷ node 0 0x03 217
        ∷ node 0 0x03 227
        ∷ node 0 0x03 229
        ∷ node 0 0x03 230
        ∷ node 122 0x00 0
        ∷ node 124 0x00 0
        ∷ node 125 0x00 0
        ∷ node 128 0x00 0
        ∷ node 129 0x00 0
        ∷ node 131 0x00 0
        ∷ node 132 0x00 0
        ∷ [])
    ∷ []
