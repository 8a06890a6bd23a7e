-- ===== src/Huffman/Decoding/Rows128.antt =====
-- bnl/http3/src/codec/qpack/huffman/decode_generated.cpp: the rows of `table` from 128 to 135.
use bnl.Prelude.{List, [], ◌∷◌}
use bnl.Huffman.Decoding.Entry.{Node, node}

unfoldable pub rows_128 : List (List Node)
rows_128 =
    (node 3 0x02 154
      ∷ node 6 0x02 154
      ∷ node 10 0x02 154
      ∷ node 15 0x02 154
      ∷ node 24 0x02 154
      ∷ node 31 0x02 154
      ∷ node 41 0x02 154
      ∷ node 56 0x03 154
      ∷ node 3 0x02 156
      ∷ node 6 0x02 156
      ∷ node 10 0x02 156
      ∷ node 15 0x02 156
      ∷ node 24 0x02 156
      ∷ node 31 0x02 156
      ∷ node 41 0x02 156
      ∷ node 56 0x03 156
      ∷ [])
    ∷ (node 3 0x02 160
        ∷ node 6 0x02 160
        ∷ node 10 0x02 160
        ∷ node 15 0x02 160
        ∷ node 24 0x02 160
        ∷ node 31 0x02 160
        ∷ node 41 0x02 160
        ∷ node 56 0x03 160
        ∷ node 3 0x02 163
        ∷ node 6 0x02 163
        ∷ node 10 0x02 163
        ∷ node 15 0x02 163
        ∷ node 24 0x02 163
        ∷ node 31 0x02 163
        ∷ node 41 0x02 163
        ∷ node 56 0x03 163
        ∷ [])
    ∷ (node 2 0x02 164
        ∷ node 9 0x02 164
        ∷ node 23 0x02 164
        ∷ node 40 0x03 164
        ∷ node 2 0x02 169
        ∷ node 9 0x02 169
        ∷ node 23 0x02 169
        ∷ node 40 0x03 169
        ∷ node 2 0x02 170
        ∷ node 9 0x02 170
        ∷ node 23 0x02 170
        ∷ node 40 0x03 170
        ∷ node 2 0x02 173
        ∷ node 9 0x02 173
        ∷ node 23 0x02 173
        ∷ node 40 0x03 173
        ∷ [])
    ∷ (node 3 0x02 164
        ∷ node 6 0x02 164
        ∷ node 10 0x02 164
        ∷ node 15 0x02 164
        ∷ node 24 0x02 164
        ∷ node 31 0x02 164
        ∷ node 41 0x02 164
        ∷ node 56 0x03 164
        ∷ node 3 0x02 169
        ∷ node 6 0x02 169
        ∷ node 10 0x02 169
        ∷ node 15 0x02 169
        ∷ node 24 0x02 169
        ∷ node 31 0x02 169
        ∷ node 41 0x02 169
        ∷ node 56 0x03 169
        ∷ [])
    ∷ (node 3 0x02 170
        ∷ node 6 0x02 170
        ∷ node 10 0x02 170
        ∷ node 15 0x02 170
        ∷ node 24 0x02 170
        ∷ node 31 0x02 170
        ∷ node 41 0x02 170
        ∷ node 56 0x03 170
        ∷ node 3 0x02 173
        ∷ node 6 0x02 173
        ∷ node 10 0x02 173
        ∷ node 15 0x02 173
        ∷ node 24 0x02 173
        ∷ node 31 0x02 173
        ∷ node 41 0x02 173
        ∷ node 56 0x03 173
        ∷ [])
    ∷ (node 137 0x00 0
        ∷ node 138 0x00 0
        ∷ node 140 0x00 0
        ∷ node 141 0x00 0
        ∷ node 144 0x00 0
        ∷ node 145 0x00 0
        ∷ node 147 0x00 0
        ∷ node 150 0x00 0
        ∷ node 156 0x00 0
        ∷ node 159 0x00 0
        ∷ node 163 0x00 0
        ∷ node 166 0x00 0
        ∷ node 171 0x00 0
        ∷ node 174 0x00 0
        ∷ node 181 0x00 0
        ∷ node 190 0x00 0
        ∷ [])
    ∷ (node 0 0x03 178
        ∷ node 0 0x03 181
        ∷ node 0 0x03 185
        ∷ node 0 0x03 186
        ∷ node 0 0x03 187
        ∷ node 0 0x03 189
        ∷ node 0 0x03 190
        ∷ node 0 0x03 196
        ∷ node 0 0x03 198
        ∷ node 0 0x03 228
        ∷ node 0 0x03 232
        ∷ node 0 0x03 233
        ∷ node 148 0x00 0
        ∷ node 149 0x00 0
        ∷ node 151 0x00 0
        ∷ node 152 0x00 0
        ∷ [])
    ∷ (node 1 0x02 178
        ∷ node 22 0x03 178
        ∷ node 1 0x02 181
        ∷ node 22 0x03 181
        ∷ node 1 0x02 185
        ∷ node 22 0x03 185
        ∷ node 1 0x02 186
        ∷ node 22 0x03 186
        ∷ node 1 0x02 187
        ∷ node 22 0x03 187
        ∷ node 1 0x02 189
        ∷ node 22 0x03 189
        ∷ node 1 0x02 190
        ∷ node 22 0x03 190
        ∷ node 1 0x02 196
        ∷ node 22 0x03 196
        ∷ [])
    ∷ []
