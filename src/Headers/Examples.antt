-- ===== src/Headers/Examples.antt =====
-- The theorem on header blocks at a concrete input.
use bnl.Prelude.{ℕ, suc, ◌^◌, ◌<◌, ◌≡◌, arith, List, [], ◌∷◌, ◌++◌, length}
use bnl.Error.{ok}
use bnl.Event.{Header}
use bnl.Frame.{Frame}
use bnl.Frame.Write
use bnl.Buffers.View.{view}
use bnl.Qpack.{new_coder, encode}
use bnl.Qpack.Codec.{codec}
use bnl.Qpack.Sample.{sample_hash, age_7, age-Sendable}
use bnl.Qpack.Table.{find_index, names}
use bnl.PrefixInt
use bnl.Headers.{Encoder, new_encoder, new_decoder}
use bnl.Headers.Sending.{add_all, transmit, blocks}
use bnl.Headers.Transfer.{collect, transmit-collect_headers}

-- The same header twice.
abbrev two_headers : List Header
two_headers = age_7 ∷ age_7 ∷ []

two_headers_small : length (view (blocks sample_hash two_headers new_coder).0) < 2 ^ 62
unfolding view encode find_index names PrefixInt.encode bnl.Literal.encode bnl.Huffman.encoded_size
two_headers_small = omega arith

transmit-collect_headers_example :
    (e : Encoder (codec sample_hash)) × (frame : List ℕ) × (add_all sample_hash two_headers
        (new_encoder (codec sample_hash))
      ≡ (ok tt, e))
    × (Write.encode_buffer
          (Frame.headers (length (view (blocks sample_hash two_headers new_coder).0)))
        ≡ ok frame)
    × (transmit sample_hash (suc (suc (length two_headers))) e
        ≡ ok (frame ∷ (blocks sample_hash two_headers new_coder).0))
    × (length (blocks sample_hash two_headers new_coder).0 ≡ length two_headers)
    × (collect sample_hash
          (suc (length two_headers))
          (new_decoder (codec sample_hash))
          (view (frame ∷ (blocks sample_hash two_headers new_coder).0) ++ 7 ∷ [])
        ≡ ok (two_headers, 7 ∷ []))
transmit-collect_headers_example =
    transmit-collect_headers sample_hash two_headers (7 ∷ []) (age-Sendable, (age-Sendable, tt))
      (omega arith) two_headers_small
