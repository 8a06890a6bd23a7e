-- ===== src/Huffman/Decoding.antt =====
-- bnl/http3/src/codec/qpack/huffman/decode_generated.cpp: `decoding::table`, a row for each state
-- and in it an entry for each half of a byte.
pub mod Entry
mod Rows0
mod Rows8
mod Rows16
mod Rows24
mod Rows32
mod Rows40
mod Rows48
mod Rows56
mod Rows64
mod Rows72
mod Rows80
mod Rows88
mod Rows96
mod Rows104
mod Rows112
mod Rows120
mod Rows128
mod Rows136
mod Rows144
mod Rows152
mod Rows160
mod Rows168
mod Rows176
mod Rows184
mod Rows192
mod Rows200
mod Rows208
mod Rows216
mod Rows224
mod Rows232
mod Rows240
mod Rows248
use bnl.Prelude.{ℕ, List, [], ◌++◌, get_or}
use bnl.Huffman.Decoding.Entry.{Node, node}
use bnl.Huffman.Decoding.Rows0.{rows_0}
use bnl.Huffman.Decoding.Rows8.{rows_8}
use bnl.Huffman.Decoding.Rows16.{rows_16}
use bnl.Huffman.Decoding.Rows24.{rows_24}
use bnl.Huffman.Decoding.Rows32.{rows_32}
use bnl.Huffman.Decoding.Rows40.{rows_40}
use bnl.Huffman.Decoding.Rows48.{rows_48}
use bnl.Huffman.Decoding.Rows56.{rows_56}
use bnl.Huffman.Decoding.Rows64.{rows_64}
use bnl.Huffman.Decoding.Rows72.{rows_72}
use bnl.Huffman.Decoding.Rows80.{rows_80}
use bnl.Huffman.Decoding.Rows88.{rows_88}
use bnl.Huffman.Decoding.Rows96.{rows_96}
use bnl.Huffman.Decoding.Rows104.{rows_104}
use bnl.Huffman.Decoding.Rows112.{rows_112}
use bnl.Huffman.Decoding.Rows120.{rows_120}
use bnl.Huffman.Decoding.Rows128.{rows_128}
use bnl.Huffman.Decoding.Rows136.{rows_136}
use bnl.Huffman.Decoding.Rows144.{rows_144}
use bnl.Huffman.Decoding.Rows152.{rows_152}
use bnl.Huffman.Decoding.Rows160.{rows_160}
use bnl.Huffman.Decoding.Rows168.{rows_168}
use bnl.Huffman.Decoding.Rows176.{rows_176}
use bnl.Huffman.Decoding.Rows184.{rows_184}
use bnl.Huffman.Decoding.Rows192.{rows_192}
use bnl.Huffman.Decoding.Rows200.{rows_200}
use bnl.Huffman.Decoding.Rows208.{rows_208}
use bnl.Huffman.Decoding.Rows216.{rows_216}
use bnl.Huffman.Decoding.Rows224.{rows_224}
use bnl.Huffman.Decoding.Rows232.{rows_232}
use bnl.Huffman.Decoding.Rows240.{rows_240}
use bnl.Huffman.Decoding.Rows248.{rows_248}

-- `flag`.
abbrev pub accepted_flag : ℕ
accepted_flag = 1

abbrev pub symbol_flag : ℕ
symbol_flag = 2

abbrev pub failed_flag : ℕ
failed_flag = 4

unfoldable pub table : List (List Node)
unfolding rows_0 rows_8 rows_16 rows_24 rows_32 rows_40 rows_48 rows_56 rows_64 rows_72 rows_80
    rows_88 rows_96 rows_104 rows_112 rows_120 rows_128 rows_136 rows_144 rows_152 rows_160 rows_168
    rows_176 rows_184 rows_192 rows_200 rows_208 rows_216 rows_224 rows_232 rows_240 rows_248
table =
    rows_0
    ++ (rows_8
        ++ (rows_16
            ++ (rows_24
                ++ (rows_32
                    ++ (rows_40
                        ++ (rows_48
                            ++ (rows_56
                                ++ (rows_64
                                    ++ (rows_72
                                        ++ (rows_80
                                            ++ (rows_88
                                                ++ (rows_96
                                                    ++ (rows_104
                                                        ++ (rows_112
                                                            ++ (rows_120
                                                            ++ (rows_128
                                                            ++ (rows_136
                                                            ++ (rows_144
                                                            ++ (rows_152
                                                            ++ (rows_160
                                                            ++ (rows_168
                                                            ++ (rows_176
                                                            ++ (rows_184
                                                            ++ (rows_192
                                                            ++ (rows_200
                                                            ++ (rows_208
                                                            ++ (rows_216
                                                            ++ (rows_224
                                                            ++ (rows_232
                                                            ++ (rows_240
                                                            ++ rows_248))))))))))))))))))))))))))))))

-- `table[state][half]`.
unfoldable pub node_at : ℕ → ℕ → Node
unfolding table
node_at state half = get_or (get_or table state []) half (node 0 0 0)
