-- ===== src/Qpack/Table.antt =====
-- bnl/http3/src/codec/qpack/encode_generated.cpp and decode_generated.cpp: the static table. XXH64
-- is a parameter, `hash`.
pub mod Entry
mod Names0
mod Names1
mod Names2
mod HeaderValues0
mod HeaderValues1
mod HeaderNames0
mod HeaderNames1
pub mod Agree
use bnl.Prelude.{ℕ, Bool, List, [], ◌∷◌, ◌++◌, Option, none, some, ◌==◌, if◌then◌else◌, bit_and}
use bnl.Prelude.Text.{chars}
use bnl.Event.{Header}
use bnl.Qpack.Table.Entry.{
  Value, value_case, Name, name_case, HeaderValue, header_value_case, HeaderName, header_name_case,
}
use bnl.Qpack.Table.Names0.{names_0}
use bnl.Qpack.Table.Names1.{names_1}
use bnl.Qpack.Table.Names2.{names_2}
use bnl.Qpack.Table.HeaderValues0.{header_values_0}
use bnl.Qpack.Table.HeaderValues1.{header_values_1}
use bnl.Qpack.Table.HeaderNames0.{header_names_0}
use bnl.Qpack.Table.HeaderNames1.{header_names_1}

-- `table::fixed::type` of the decoder; `find_index` does not return `unknown`.
pub data InstructionType : Type 0 where
  header_value header_only missing unknown : InstructionType

unfoldable pub names : List Name
unfolding names_0 names_1 names_2
names = names_0 ++ (names_1 ++ names_2)

-- The inner switch, over `value_hash`.
unfoldable pub find_value : ℕ → List Value → Option ℕ
find_value value_hash [] = none
find_value value_hash (value_case hash text index ∷ cases) =
    let rest = find_value value_hash cases in if value_hash == hash then some index else rest

-- What a case of the outer switch returns.
unfoldable pub value_or_name : ℕ → ℕ → List Value → InstructionType × ℕ
unfolding find_value
value_or_name value_hash index values = elim (find_value value_hash values) [
  | none ↦ (header_only, index)
  | some found ↦ (header_value, found)
]

-- The outer switch, over `name_hash`.
unfoldable pub find_name : ℕ → ℕ → List Name → InstructionType × ℕ
unfolding value_or_name
find_name name_hash value_hash [] = (missing, 0)
find_name name_hash value_hash (name_case hash text values index ∷ cases) =
    let rest = find_name name_hash value_hash cases in
    if name_hash == hash then value_or_name value_hash index values else rest

unfoldable pub find_index : (List ℕ → ℕ) → Header → InstructionType × ℕ
unfolding find_name names
find_index hash header = find_name (hash header.name) (hash header.value) names

unfoldable pub find_type : ℕ → InstructionType
find_type byte =
    if bit_and byte 0x80 == 0x80
    then header_value
    else if bit_and byte 0x40 == 0x40
    then header_only
    else if bit_and byte 0x20 == 0x20
    then missing
    else unknown

unfoldable pub find_value_case : ℕ → List HeaderValue → Option Header
find_value_case index [] = none
find_value_case index (header_value_case number name_text value_text ∷ cases) =
    let rest = find_value_case index cases in
    if index == number
    then some (record { name = chars name_text; value = chars value_text })
    else rest

unfoldable pub find_header_value : ℕ → Option Header
unfolding find_value_case header_values_0 header_values_1 chars
find_header_value index = find_value_case index (header_values_0 ++ header_values_1)

unfoldable pub find_name_case : ℕ → List HeaderName → Option (List ℕ)
find_name_case index [] = none
find_name_case index (header_name_case number text ∷ cases) =
    let rest = find_name_case index cases in if index == number then some (chars text) else rest

unfoldable pub find_header_only : ℕ → Option (List ℕ)
unfolding find_name_case header_names_0 header_names_1 chars
find_header_only index = find_name_case index (header_names_0 ++ header_names_1)
