-- ===== src/Huffman/Decoding/Rows96.antt =====
-- bnl/http3/src/codec/qpack/huffman/decode_generated.cpp: the rows of `table` from 96 to 103.
use bnl.Prelude.{List, [], ◌∷◌}
use bnl.Huffman.Decoding.Entry.{Node, node}

unfoldable pub rows_96 : List (List Node)
rows_96 =
    (node 1 0x02 92
      ∷ node 22 0x03 92
      ∷ node 1 0x02 195
      ∷ node 22 0x03 195
      ∷ node 1 0x02 208
      ∷ node 22 0x03 208
      ∷ node 0 0x03 128
      ∷ node 0 0x03 130
      ∷ node 0 0x03 131
      ∷ node 0 0x03 162
      ∷ node 0 0x03 184
      ∷ node 0 0x03 194
      ∷ node 0 0x03 224
      ∷ node 0 0x03 226
      ∷ node 108 0x00 0
      ∷ node 109 0x00 0
      ∷ [])
    ∷ (node 2 0x02 92
        ∷ node 9 0x02 92
        ∷ node 23 0x02 92
        ∷ node 40 0x03 92
        ∷ node 2 0x02 195
        ∷ node 9 0x02 195
        ∷ node 23 0x02 195
        ∷ node 40 0x03 195
        ∷ node 2 0x02 208
        ∷ node 9 0x02 208
        ∷ node 23 0x02 208
        ∷ node 40 0x03 208
        ∷ node 1 0x02 128
        ∷ node 22 0x03 128
        ∷ node 1 0x02 130
        ∷ node 22 0x03 130
        ∷ [])
    ∷ (node 3 0x02 92
        ∷ node 6 0x02 92
        ∷ node 10 0x02 92
        ∷ node 15 0x02 92
        ∷ node 24 0x02 92
        ∷ node 31 0x02 92
        ∷ node 41 0x02 92
        ∷ node 56 0x03 92
        ∷ node 3 0x02 195
        ∷ node 6 0x02 195
        ∷ node 10 0x02 195
        ∷ node 15 0x02 195
        ∷ node 24 0x02 195
        ∷ node 31 0x02 195
        ∷ node 41 0x02 195
        ∷ node 56 0x03 195
        ∷ [])
    ∷ (node 3 0x02 208
        ∷ node 6 0x02 208
        ∷ node 10 0x02 208
        ∷ node 15 0x02 208
        ∷ node 24 0x02 208
        ∷ node 31 0x02 208
        ∷ node 41 0x02 208
        ∷ node 56 0x03 208
        ∷ node 2 0x02 128
        ∷ node 9 0x02 128
        ∷ node 23 0x02 128
        ∷ node 40 0x03 128
        ∷ node 2 0x02 130
        ∷ node 9 0x02 130
        ∷ node 23 0x02 130
        ∷ node 40 0x03 130
        ∷ [])
    ∷ (node 3 0x02 128
        ∷ node 6 0x02 128
        ∷ node 10 0x02 128
        ∷ node 15 0x02 128
        ∷ node 24 0x02 128
        ∷ node 31 0x02 128
        ∷ node 41 0x02 128
        ∷ node 56 0x03 128
        ∷ node 3 0x02 130
        ∷ node 6 0x02 130
        ∷ node 10 0x02 130
        ∷ node 15 0x02 130
        ∷ node 24 0x02 130
        ∷ node 31 0x02 130
        ∷ node 41 0x02 130
        ∷ node 56 0x03 130
        ∷ [])
    ∷ (node 1 0x02 131
        ∷ node 22 0x03 131
        ∷ node 1 0x02 162
        ∷ node 22 0x03 162
        ∷ node 1 0x02 184
        ∷ node 22 0x03 184
        ∷ node 1 0x02 194
        ∷ node 22 0x03 194
        ∷ node 1 0x02 224
        ∷ node 22 0x03 224
        ∷ node 1 0x02 226
        ∷ node 22 0x03 226
        ∷ node 0 0x03 153
        ∷ node 0 0x03 161
        ∷ node 0 0x03 167
        ∷ node 0 0x03 172
        ∷ [])
    ∷ (node 2 0x02 131
        ∷ node 9 0x02 131
        ∷ node 23 0x02 131
        ∷ node 40 0x03 131
        ∷ node 2 0x02 162
        ∷ node 9 0x02 162
        ∷ node 23 0x02 162
        ∷ node 40 0x03 162
        ∷ node 2 0x02 184
        ∷ node 9 0x02 184
        ∷ node 23 0x02 184
        ∷ node 40 0x03 184
        ∷ node 2 0x02 194
        ∷ node 9 0x02 194
        ∷ node 23 0x02 194
        ∷ node 40 0x03 194
        ∷ [])
    ∷ (node 3 0x02 131
        ∷ node 6 0x02 131
        ∷ node 10 0x02 131
        ∷ node 15 0x02 131
        ∷ node 24 0x02 131
        ∷ node 31 0x02 131
        ∷ node 41 0x02 131
        ∷ node 56 0x03 131
        ∷ node 3 0x02 162
        ∷ node 6 0x02 162
        ∷ node 10 0x02 162
        ∷ node 15 0x02 162
        ∷ node 24 0x02 162
        ∷ node 31 0x02 162
        ∷ node 41 0x02 162
        ∷ node 56 0x03 162
        ∷ [])
    ∷ []
