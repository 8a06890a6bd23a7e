-- ===== src/Literal.antt =====
-- bnl/http3/src/codec/qpack/literal: a string behind its length and the bit that says whether it is
-- coded. `encode` gets the byte that stands at `dest`.
pub mod RoundTrip
mod Examples
use bnl.Prelude.{
  ℕ, ◌+◌, ◌/◌, ◌%◌, ◌^◌, ◌≡◌, Bool, true, false, not, List, [], ◌∷◌, ◌++◌, length, take, drop, ltb,
  ◌==◌, if◌then◌else◌, bit_and, bit_or,
}
use bnl.Error.{ok, err, incomplete}
use bnl.Reader.{Reader, ◌>>=◌, lookahead}
use bnl.PrefixInt
use bnl.Huffman

-- `literal_encoded_size`: the smaller one of the sizes with and without the Huffman code.
unfoldable pub smaller_size : List ℕ → ℕ
smaller_size literal =
    if ltb (Huffman.encoded_size literal) (length literal)
    then Huffman.encoded_size literal
    else length literal

unfoldable pub encoded_size : List ℕ → ℕ → ℕ
unfolding smaller_size
encoded_size literal prefix =
    PrefixInt.encoded_size (smaller_size literal) prefix + smaller_size literal

unfoldable pub encode : ℕ → List ℕ → ℕ → List ℕ
unfolding smaller_size
encode at_dest literal prefix =
    if ltb (smaller_size literal) (length literal)
    then PrefixInt.encode (bit_or at_dest (2 ^ prefix % 2 ^ 8)) (smaller_size literal) prefix
      ++ Huffman.encode literal
    else PrefixInt.encode at_dest (smaller_size literal) prefix ++ literal

-- `static_cast<uint8_t>(*lookahead >> prefix) & 0x01`
abbrev pub is_huffman : ℕ → ℕ → Bool
is_huffman prefix byte = not (bit_and (byte / 2 ^ prefix % 2 ^ 8) 0x01 == 0)

-- `decode` behind the length.
unfoldable pub payload_decode : Bool → ℕ → Reader (List ℕ)
payload_decode coded size encoded =
    if ltb (length encoded) size
    then (err incomplete, encoded)
    else if coded
    then Huffman.decode size encoded
    else (ok (take size encoded), drop size encoded)

unfoldable pub decode : ℕ → Reader (List ℕ)
unfolding payload_decode
decode prefix [] = (err incomplete, [])
decode prefix (byte ∷ encoded) =
    lookahead (PrefixInt.decode prefix >>= payload_decode (is_huffman prefix byte)) (byte ∷ encoded)
