-- ===== src/Huffman/Decoding/Rows160.antt =====
-- bnl/http3/src/codec/qpack/huffman/decode_generated.cpp: the rows of `table` from 160 to 167.
use bnl.Prelude.{List, [], ◌∷◌}
use bnl.Huffman.Decoding.Entry.{Node, node}

unfoldable pub rows_160 : List (List Node)
rows_160 =
    (node 3 0x02 152
      ∷ node 6 0x02 152
      ∷ node 10 0x02 152
      ∷ node 15 0x02 152
      ∷ node 24 0x02 152
      ∷ node 31 0x02 152
      ∷ node 41 0x02 152
      ∷ node 56 0x03 152
      ∷ node 3 0x02 155
      ∷ node 6 0x02 155
      ∷ node 10 0x02 155
      ∷ node 15 0x02 155
      ∷ node 24 0x02 155
      ∷ node 31 0x02 155
      ∷ node 41 0x02 155
      ∷ node 56 0x03 155
      ∷ [])
    ∷ (node 3 0x02 157
        ∷ node 6 0x02 157
        ∷ node 10 0x02 157
        ∷ node 15 0x02 157
        ∷ node 24 0x02 157
        ∷ node 31 0x02 157
        ∷ node 41 0x02 157
        ∷ node 56 0x03 157
        ∷ node 3 0x02 158
        ∷ node 6 0x02 158
        ∷ node 10 0x02 158
        ∷ node 15 0x02 158
        ∷ node 24 0x02 158
        ∷ node 31 0x02 158
        ∷ node 41 0x02 158
        ∷ node 56 0x03 158
        ∷ [])
    ∷ (node 1 0x02 165
        ∷ node 22 0x03 165
        ∷ node 1 0x02 166
        ∷ node 22 0x03 166
        ∷ node 1 0x02 168
        ∷ node 22 0x03 168
        ∷ node 1 0x02 174
        ∷ node 22 0x03 174
        ∷ node 1 0x02 175
        ∷ node 22 0x03 175
        ∷ node 1 0x02 180
        ∷ node 22 0x03 180
        ∷ node 1 0x02 182
        ∷ node 22 0x03 182
        ∷ node 1 0x02 183
        ∷ node 22 0x03 183
        ∷ [])
    ∷ (node 2 0x02 165
        ∷ node 9 0x02 165
        ∷ node 23 0x02 165
        ∷ node 40 0x03 165
        ∷ node 2 0x02 166
        ∷ node 9 0x02 166
        ∷ node 23 0x02 166
        ∷ node 40 0x03 166
        ∷ node 2 0x02 168
        ∷ node 9 0x02 168
        ∷ node 23 0x02 168
        ∷ node 40 0x03 168
        ∷ node 2 0x02 174
        ∷ node 9 0x02 174
        ∷ node 23 0x02 174
        ∷ node 40 0x03 174
        ∷ [])
    ∷ (node 3 0x02 165
        ∷ node 6 0x02 165
        ∷ node 10 0x02 165
        ∷ node 15 0x02 165
        ∷ node 24 0x02 165
        ∷ node 31 0x02 165
        ∷ node 41 0x02 165
        ∷ node 56 0x03 165
        ∷ node 3 0x02 166
        ∷ node 6 0x02 166
        ∷ node 10 0x02 166
        ∷ node 15 0x02 166
        ∷ node 24 0x02 166
        ∷ node 31 0x02 166
        ∷ node 41 0x02 166
        ∷ node 56 0x03 166
        ∷ [])
    ∷ (node 3 0x02 168
        ∷ node 6 0x02 168
        ∷ node 10 0x02 168
        ∷ node 15 0x02 168
        ∷ node 24 0x02 168
        ∷ node 31 0x02 168
        ∷ node 41 0x02 168
        ∷ node 56 0x03 168
        ∷ node 3 0x02 174
        ∷ node 6 0x02 174
        ∷ node 10 0x02 174
        ∷ node 15 0x02 174
        ∷ node 24 0x02 174
        ∷ node 31 0x02 174
        ∷ node 41 0x02 174
        ∷ node 56 0x03 174
        ∷ [])
    ∷ (node 2 0x02 175
        ∷ node 9 0x02 175
        ∷ node 23 0x02 175
        ∷ node 40 0x03 175
        ∷ node 2 0x02 180
        ∷ node 9 0x02 180
        ∷ node 23 0x02 180
        ∷ node 40 0x03 180
        ∷ node 2 0x02 182
        ∷ node 9 0x02 182
        ∷ node 23 0x02 182
        ∷ node 40 0x03 182
        ∷ node 2 0x02 183
        ∷ node 9 0x02 183
        ∷ node 23 0x02 183
        ∷ node 40 0x03 183
        ∷ [])
    ∷ (node 3 0x02 175
        ∷ node 6 0x02 175
        ∷ node 10 0x02 175
        ∷ node 15 0x02 175
        ∷ node 24 0x02 175
        ∷ node 31 0x02 175
        ∷ node 41 0x02 175
        ∷ node 56 0x03 175
        ∷ node 3 0x02 180
        ∷ node 6 0x02 180
        ∷ node 10 0x02 180
        ∷ node 15 0x02 180
        ∷ node 24 0x02 180
        ∷ node 31 0x02 180
        ∷ node 41 0x02 180
        ∷ node 56 0x03 180
        ∷ [])
    ∷ []
