-- ===== src/Qpack/Table/Agree.antt =====
-- The switches of the encoder and those of the decoder agree.
use bnl.Prelude.{
  ℕ, ◌<◌, ◌≡◌, refl, sym, ap, ◌∙◌, Bool, true, false, ◌&&◌, List, [], ◌∷◌, Option, none, some, ltb,
  ltb→lt, ◌==◌, Bool-cases, inl, inr,
}
use bnl.Prelude.Sweep.{same, same→eq, and-left, and-right, implies, implied}
use bnl.Prelude.Text.{chars}
use bnl.Event.{Header}
use bnl.Qpack.Table.Entry.{Value, value_case, Name, name_case}
use bnl.Qpack.Table.{
  InstructionType, header_value, header_only, missing, unknown, names, find_value, value_or_name,
  find_name, find_index, find_header_value, find_header_only,
}

-- No text of the table has the hash of another value, or of another name.
abbrev pub value_recognised : (List ℕ → ℕ) → List ℕ → List Value → Bool
value_recognised h text [] = true
value_recognised h text (value_case hash known index ∷ cases) =
    implies (h text == hash) (same text (chars known)) && value_recognised h text cases

abbrev pub name_recognised : (List ℕ → ℕ) → Header → List Name → Bool
name_recognised h header [] = true
name_recognised h header (name_case hash known values index ∷ cases) =
    (implies (h header.name == hash) (same header.name (chars known))
      && value_recognised h header.value values)
    && name_recognised h header cases

-- The hash of the name is the hash of a text of the table only if it is that text, and so for the
-- value.
abbrev pub Recognised : (List ℕ → ℕ) → Header → Type 0
Recognised hash header = name_recognised hash header names ≡ true

abbrev reads_value : List ℕ → List ℕ → Option Header → Bool
reads_value first second none = false
reads_value first second (some header) = same header.name first && same header.value second

abbrev reads_name : List ℕ → Option (List ℕ) → Bool
reads_name text none = false
reads_name text (some found) = same found text

abbrev values_agree : List ℕ → List Value → Bool
values_agree text [] = true
values_agree text (value_case hash known index ∷ cases) =
    (ltb index 256 && reads_value text (chars known) (find_header_value index))
    && values_agree text cases

abbrev names_agree : List Name → Bool
names_agree [] = true
names_agree (name_case hash known values index ∷ cases) =
    ((ltb index 256 && reads_name (chars known) (find_header_only index))
      && values_agree (chars known) values)
    && names_agree cases

all_agree : names_agree names ≡ true
unfolding names chars find_header_value find_header_only
all_agree = refl

-- What the decoder makes of an index for the header.
abbrev pub Found : Header → InstructionType × ℕ → Type 0
Found header (header_value, index) = (index < 256) × (find_header_value index ≡ some header)
Found header (header_only, index) = (index < 256) × (find_header_only index ≡ some header.name)
Found header (missing, index) = Unit {0}
Found header (unknown, index) = false ≡ true

header_eq : (g h : Header) → g.name ≡ h.name → g.value ≡ h.value → g ≡ h
header_eq g h e f =
    ap (λ (n : List ℕ). record { name = n; value = g.value }) e
    ∙ ap (λ (v : List ℕ). record { name = h.name; value = v }) f

read_value :
    (header : Header) (first second : List ℕ) (found : Option Header)
    → header.name ≡ first
    → header.value ≡ second
    → reads_value first second found ≡ true
    → found ≡ some header
read_value header first second none e f h = cc
read_value header first second (some g) e f h = ap some (
    header_eq g header (same→eq g.name first (and-left _ _ h) ∙ sym e)
      (same→eq g.value second (and-right (same g.name first) _ h) ∙ sym f))

read_name :
    (text known : List ℕ) (found : Option (List ℕ))
    → text ≡ known
    → reads_name known found ≡ true
    → found ≡ some text
read_name text known none e h = cc
read_name text known (some g) e h = ap some (same→eq g known h ∙ sym e)

module _ (hash : List ℕ → ℕ) (header : Header) where
  find_value-Found :
      (known : List ℕ) (index : ℕ) (cases : List Value)
      → header.name ≡ known
      → values_agree known cases ≡ true
      → value_recognised hash header.value cases ≡ true
      → Found header (header_only, index)
      → Found header (elim (find_value (hash header.value) cases) [
        | none ↦ (header_only, index)
        | some found ↦ (header_value, found)
      ])
  unfolding find_value
  find_value-Found known index [] e a r f = f
  find_value-Found known index (value_case h text i ∷ cases) e a r f =
      elim (Bool-cases (hash header.value == h)) [
        | inl x ↦
            let b =
              and-left (ltb i 256 && reads_value known (chars text) (find_header_value i)) _ a in
            let c =
              implied _ _
                (and-left (implies (hash header.value == h) (same header.value (chars text))) _ r)
                x in
            rw x (
              ltb→lt i 256 (and-left _ _ b),
              read_value header known (chars text) (find_header_value i) e
                  (same→eq header.value (chars text) c) (and-right (ltb i 256) _ b),
            )
        | inr x ↦ rw x (
            find_value-Found known index cases e
              (and-right (ltb i 256 && reads_value known (chars text) (find_header_value i)) _ a)
              (and-right (implies (hash header.value == h) (same header.value (chars text))) _ r) f)
      ]

  find_name-Found :
      (cases : List Name)
      → names_agree cases ≡ true
      → name_recognised hash header cases ≡ true
      → Found header (find_name (hash header.name) (hash header.value) cases)
  unfolding find_name value_or_name
  find_name-Found [] a r = tt
  find_name-Found (name_case h text values i ∷ cases) a r =
      let own_case =
        (ltb i 256 && reads_name (chars text) (find_header_only i))
        && values_agree (chars text) values in
      let own_hash =
        implies (hash header.name == h) (same header.name (chars text))
        && value_recognised hash header.value values in
      elim (Bool-cases (hash header.name == h)) [
        | inl x ↦
            let b = and-left own_case _ a in
            let c = and-left (ltb i 256 && reads_name (chars text) (find_header_only i)) _ b in
            let d = and-left own_hash _ r in
            let e =
              same→eq header.name (chars text)
                (implied (hash header.name == h) _ (and-left _ _ d) x) in
            rw x (
              find_value-Found (chars text) i values e
                (and-right (ltb i 256 && reads_name (chars text) (find_header_only i)) _ b)
                (and-right (implies (hash header.name == h) (same header.name (chars text))) _ d)
                (
                  ltb→lt i 256 (and-left _ _ c),
                  read_name header.name (chars text) (find_header_only i) e
                      (and-right (ltb i 256) _ c),
                ))
        | inr x ↦ rw x (find_name-Found cases (and-right own_case _ a) (and-right own_hash _ r))
      ]

-- The index that the encoder finds for a header is one where the decoder finds the header, or its
-- name where only the name was found: for a header that its hashes recognise.
pub find_index-Found :
    (hash : List ℕ → ℕ) (header : Header)
    → Recognised hash header
    → Found header (find_index hash header)
unfolding find_index
find_index-Found hash header r = find_name-Found hash header names all_agree r
