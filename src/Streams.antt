-- ===== src/Streams.antt =====
-- `std::map<uint64_t, T>`: its entries in the order of their keys.
pub mod Keys
use bnl.Prelude.{ℕ, List, [], ◌∷◌, Option, none, some, ltb, ◌==◌, if◌then◌else◌}

module _ {ℓ} {T : Type ℓ} where
  abbrev pub find : ℕ → List (ℕ × T) → Option T
  find id [] = none
  find id ((key, value) ∷ entries) = if key == id then some value else find id entries

  -- An entry with the key is kept as it is.
  unfoldable pub insert : ℕ → T → List (ℕ × T) → List (ℕ × T)
  insert id new [] = (id, new) ∷ []
  insert id new ((key, value) ∷ entries) =
      let rest = insert id new entries in
      if key == id
      then (key, value) ∷ entries
      else if ltb id key
      then (id, new) ∷ (key, value) ∷ entries
      else (key, value) ∷ rest

  unfoldable pub erase : ℕ → List (ℕ × T) → List (ℕ × T)
  erase id [] = []
  erase id ((key, value) ∷ entries) =
      let rest = erase id entries in if key == id then entries else (key, value) ∷ rest

  -- The value under a key, changed through a reference.
  unfoldable pub update : ℕ → T → List (ℕ × T) → List (ℕ × T)
  update id new [] = []
  update id new ((key, value) ∷ entries) =
      let rest = update id new entries in
      if key == id then (key, new) ∷ entries else (key, value) ∷ rest
