-- ===== src/Qpack/Table/Entry.antt =====
-- bnl/http3/src/codec/qpack/encode_generated.cpp and decode_generated.cpp: the cases of their
-- switches.
use bnl.Prelude.{ℕ, List}
use Prim.Native.String.{String}

-- `case hash: // text` of a value, with its index.
pub data Value : Type 0 where
  value_case : (hash : ℕ) (text : String) (index : ℕ) → Value

-- `case hash: // text` of a name, with the switch over its values and the index of the name alone.
pub data Name : Type 0 where
  name_case : (hash : ℕ) (text : String) (values : List Value) (index : ℕ) → Name

-- `case index` of `find_header_value`, and of `find_header_only`.
pub data HeaderValue : Type 0 where
  header_value_case : (index : ℕ) (name_text value_text : String) → HeaderValue

pub data HeaderName : Type 0 where
  header_name_case : (index : ℕ) (text : String) → HeaderName
