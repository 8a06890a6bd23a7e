-- ===== src/Headers/Plain.antt =====
-- A header codec for the examples: a header is its name, of one byte, behind its length.
use bnl.Prelude.{ℕ, ◌+◌, List, [], ◌∷◌, length}
use bnl.Error.{Error, ok, err}
use bnl.Object.{Op}
use bnl.Buffers.{Buffer}
use bnl.Event.{Header}
use bnl.Headers.{Qpack}

abbrev plain_encode : Header → Op ℕ Buffer
plain_encode h count = (ok (length h.name ∷ h.name), count + 1 + length h.name)

abbrev plain_decode : Op (ℕ × List ℕ) Header
plain_decode (count, size ∷ b ∷ rest) =
    (ok (record { name = b ∷ []; value = [] }), (count + 2, rest))
plain_decode (count, encoded) = (err Error.incomplete, (count, encoded))

abbrev pub plain : Qpack
plain = record {
  QpackEncoder = ℕ;
  QpackDecoder = ℕ;
  new_qpack_encoder = 0;
  new_qpack_decoder = 0;
  qpack_encode = plain_encode;
  encoder_count = λ count. count;
  qpack_decode = plain_decode;
  decoder_count = λ count. count;
}
