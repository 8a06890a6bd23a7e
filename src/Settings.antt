-- ===== src/Settings.antt =====
-- bnl/base/include/bnl/http3/settings.hpp and bnl/base/src/http3/settings.cpp.
use bnl.Prelude.{ℕ, ◌*◌, ◌-◌, ◌^◌, List, [], ◌∷◌}

-- The constants of namespace `setting`: the identifiers on the wire.
abbrev pub max_header_list_size_id : ℕ
max_header_list_size_id = 0x6

abbrev pub num_placeholders_id : ℕ
num_placeholders_id = 0x9

abbrev pub qpack_max_table_capacity_id : ℕ
qpack_max_table_capacity_id = 0x1

abbrev pub qpack_blocked_streams_id : ℕ
qpack_blocked_streams_id = 0x7

pub record Settings : Type 0 where
  pub max_header_list_size : ℕ
  pub num_placeholders : ℕ
  pub qpack_max_table_capacity : ℕ
  pub qpack_blocked_streams : ℕ

-- The default member initialisers.
abbrev pub default_settings : Settings
default_settings = record {
  max_header_list_size = 0x40 * 2 ^ 56 - 1;
  num_placeholders = 0;
  qpack_max_table_capacity = 0;
  qpack_blocked_streams = 0;
}

abbrev pub array : Settings → List (ℕ × ℕ)
array s =
    (max_header_list_size_id, s.max_header_list_size)
    ∷ (num_placeholders_id, s.num_placeholders)
    ∷ (qpack_max_table_capacity_id, s.qpack_max_table_capacity)
    ∷ (qpack_blocked_streams_id, s.qpack_blocked_streams)
    ∷ []
