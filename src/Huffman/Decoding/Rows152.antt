-- ===== src/Huffman/Decoding/Rows152.antt =====
-- bnl/http3/src/codec/qpack/huffman/decode_generated.cpp: the rows of `table` from 152 to 159.
use bnl.Prelude.{List, [], ◌∷◌}
use bnl.Huffman.Decoding.Entry.{Node, node}

unfoldable pub rows_152 : List (List Node)
rows_152 =
    (node 3 0x02 141
      ∷ node 6 0x02 141
      ∷ node 10 0x02 141
      ∷ node 15 0x02 141
      ∷ node 24 0x02 141
      ∷ node 31 0x02 141
      ∷ node 41 0x02 141
      ∷ node 56 0x03 141
      ∷ node 3 0x02 143
      ∷ node 6 0x02 143
      ∷ node 10 0x02 143
      ∷ node 15 0x02 143
      ∷ node 24 0x02 143
      ∷ node 31 0x02 143
      ∷ node 41 0x02 143
      ∷ node 56 0x03 143
      ∷ [])
    ∷ (node 157 0x00 0
        ∷ node 158 0x00 0
        ∷ node 160 0x00 0
        ∷ node 161 0x00 0
        ∷ node 164 0x00 0
        ∷ node 165 0x00 0
        ∷ node 167 0x00 0
        ∷ node 168 0x00 0
        ∷ node 172 0x00 0
        ∷ node 173 0x00 0
        ∷ node 175 0x00 0
        ∷ node 177 0x00 0
        ∷ node 182 0x00 0
        ∷ node 185 0x00 0
        ∷ node 191 0x00 0
        ∷ node 207 0x00 0
        ∷ [])
    ∷ (node 0 0x03 147
        ∷ node 0 0x03 149
        ∷ node 0 0x03 150
        ∷ node 0 0x03 151
        ∷ node 0 0x03 152
        ∷ node 0 0x03 155
        ∷ node 0 0x03 157
        ∷ node 0 0x03 158
        ∷ node 0 0x03 165
        ∷ node 0 0x03 166
        ∷ node 0 0x03 168
        ∷ node 0 0x03 174
        ∷ node 0 0x03 175
        ∷ node 0 0x03 180
        ∷ node 0 0x03 182
        ∷ node 0 0x03 183
        ∷ [])
    ∷ (node 1 0x02 147
        ∷ node 22 0x03 147
        ∷ node 1 0x02 149
        ∷ node 22 0x03 149
        ∷ node 1 0x02 150
        ∷ node 22 0x03 150
        ∷ node 1 0x02 151
        ∷ node 22 0x03 151
        ∷ node 1 0x02 152
        ∷ node 22 0x03 152
        ∷ node 1 0x02 155
        ∷ node 22 0x03 155
        ∷ node 1 0x02 157
        ∷ node 22 0x03 157
        ∷ node 1 0x02 158
        ∷ node 22 0x03 158
        ∷ [])
    ∷ (node 2 0x02 147
        ∷ node 9 0x02 147
        ∷ node 23 0x02 147
        ∷ node 40 0x03 147
        ∷ node 2 0x02 149
        ∷ node 9 0x02 149
        ∷ node 23 0x02 149
        ∷ node 40 0x03 149
        ∷ node 2 0x02 150
        ∷ node 9 0x02 150
        ∷ node 23 0x02 150
        ∷ node 40 0x03 150
        ∷ node 2 0x02 151
        ∷ node 9 0x02 151
        ∷ node 23 0x02 151
        ∷ node 40 0x03 151
        ∷ [])
    ∷ (node 3 0x02 147
        ∷ node 6 0x02 147
        ∷ node 10 0x02 147
        ∷ node 15 0x02 147
        ∷ node 24 0x02 147
        ∷ node 31 0x02 147
        ∷ node 41 0x02 147
        ∷ node 56 0x03 147
        ∷ node 3 0x02 149
        ∷ node 6 0x02 149
        ∷ node 10 0x02 149
        ∷ node 15 0x02 149
        ∷ node 24 0x02 149
        ∷ node 31 0x02 149
        ∷ node 41 0x02 149
        ∷ node 56 0x03 149
        ∷ [])
    ∷ (node 3 0x02 150
        ∷ node 6 0x02 150
        ∷ node 10 0x02 150
        ∷ node 15 0x02 150
        ∷ node 24 0x02 150
        ∷ node 31 0x02 150
        ∷ node 41 0x02 150
        ∷ node 56 0x03 150
        ∷ node 3 0x02 151
        ∷ node 6 0x02 151
        ∷ node 10 0x02 151
        ∷ node 15 0x02 151
        ∷ node 24 0x02 151
        ∷ node 31 0x02 151
        ∷ node 41 0x02 151
        ∷ node 56 0x03 151
        ∷ [])
    ∷ (node 2 0x02 152
        ∷ node 9 0x02 152
        ∷ node 23 0x02 152
        ∷ node 40 0x03 152
        ∷ node 2 0x02 155
        ∷ node 9 0x02 155
        ∷ node 23 0x02 155
        ∷ node 40 0x03 155
        ∷ node 2 0x02 157
        ∷ node 9 0x02 157
        ∷ node 23 0x02 157
        ∷ node 40 0x03 157
        ∷ node 2 0x02 158
        ∷ node 9 0x02 158
        ∷ node 23 0x02 158
        ∷ node 40 0x03 158
        ∷ [])
    ∷ []
