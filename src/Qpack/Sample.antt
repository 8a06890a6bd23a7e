-- ===== src/Qpack/Sample.antt =====
-- A header and the hashes that the examples use.
use bnl.Prelude.{ℕ, refl, arith, List, [], ◌∷◌, if◌then◌else◌}
use bnl.Prelude.Sweep.{same}
use bnl.Prelude.Text.{chars}
use bnl.Event.{Header, header_is_lowercase}
use bnl.Literal.RoundTrip.{Printable-Readable}
use bnl.Qpack.Table.{names}
use bnl.Qpack.Table.Agree.{Recognised}
use bnl.Qpack.RoundTrip.{Sendable}

-- The hash of "age", of "0", and of every other string.
abbrev pub sample_hash : List ℕ → ℕ
sample_hash text =
    if same text (97 ∷ 103 ∷ 101 ∷ [])
    then 5092756294692198100
    else if same text (48 ∷ [])
    then 7148434200721666028
    else 1

abbrev pub age_7 : Header
age_7 = record { name = 97 ∷ 103 ∷ 101 ∷ []; value = 55 ∷ [] }

pub age-Recognised : Recognised sample_hash age_7
unfolding names chars
age-Recognised = refl

pub age-Sendable : Sendable sample_hash age_7
unfolding header_is_lowercase
age-Sendable = record {
  recognised = age-Recognised;
  lowercase = refl;
  name_readable =
      Printable-Readable (97 ∷ 103 ∷ 101 ∷ [])
        (
          (omega arith, omega arith, λ e. omega arith),
          (
            (omega arith, omega arith, λ e. omega arith),
            ((omega arith, omega arith, λ e. omega arith), tt),
          ),
        )
        (omega arith);
  value_readable =
      Printable-Readable (55 ∷ []) ((omega arith, omega arith, λ e. omega arith), tt) (omega arith);
}
