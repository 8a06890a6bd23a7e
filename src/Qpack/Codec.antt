-- ===== src/Qpack/Codec.antt =====
-- The QPACK codec as the header codec uses it.
use bnl.Prelude.{ℕ, List}
use bnl.Headers.{Qpack}
use bnl.Qpack.{Coder, new_coder, encode_buffer, decode}

abbrev pub codec : (List ℕ → ℕ) → Qpack
codec hash = record {
  QpackEncoder = Coder;
  QpackDecoder = Coder;
  new_qpack_encoder = new_coder;
  new_qpack_decoder = new_coder;
  qpack_encode = encode_buffer hash;
  encoder_count = λ e. e.count;
  qpack_decode = decode;
  decoder_count = λ d. d.count;
}
