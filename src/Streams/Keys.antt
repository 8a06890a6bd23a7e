-- ===== src/Streams/Keys.antt =====
-- The keys of a map of streams.
use bnl.Prelude.{
  ℕ, ◌≤◌, ◌<◌, ◌≡◌, refl, arith, Bool-cases, inl, inr, false, List, [], ◌∷◌, some, ltb, ◌==◌,
  ==_refl,
}
use bnl.Streams.{find, insert, erase, update}

module _ {ℓ} {T : Type ℓ} where
  -- Every key is below the bound.
  abbrev pub Below : ℕ → List (ℕ × T) → Type 0
  Below bound [] = Unit {0}
  Below bound ((key, value) ∷ entries) = (key < bound) × Below bound entries

  pub Below-more : (n m : ℕ) (entries : List (ℕ × T)) → n ≤ m → Below n entries → Below m entries
  Below-more n m [] l h = tt
  Below-more n m ((key, value) ∷ entries) l h = (omega arith, Below-more n m entries l h.1)

  pub erase-Below :
      (n id : ℕ) (entries : List (ℕ × T)) → Below n entries → Below n (erase id entries)
  unfolding erase
  erase-Below n id [] h = tt
  erase-Below n id ((key, value) ∷ entries) h = elim (Bool-cases (key == id)) [
    | inl e ↦ rw e h.1
    | inr e ↦ rw e (h.0, erase-Below n id entries h.1)
  ]

  pub update-Below :
      (n id : ℕ) (new : T) (entries : List (ℕ × T))
      → Below n entries
      → Below n (update id new entries)
  unfolding update
  update-Below n id new [] h = tt
  update-Below n id new ((key, value) ∷ entries) h = elim (Bool-cases (key == id)) [
    | inl e ↦ rw e h
    | inr e ↦ rw e (h.0, update-Below n id new entries h.1)
  ]

  pub insert-Below :
      (n id : ℕ) (new : T) (entries : List (ℕ × T))
      → id < n
      → Below n entries
      → Below n (insert id new entries)
  unfolding insert
  insert-Below n id new [] l h = (l, tt)
  insert-Below n id new ((key, value) ∷ entries) l h = elim (Bool-cases (key == id)) [
    | inl e ↦ rw e h
    | inr e ↦ elim (Bool-cases (ltb id key)) [
      | inl f ↦ rw (e, f) (l, h)
      | inr f ↦ rw (e, f) (h.0, insert-Below n id new entries l h.1)
    ]
  ]

  -- Above all keys there is none, and an insertion finds its place.
  pub find-insert :
      (id : ℕ) (new : T) (entries : List (ℕ × T))
      → Below id entries
      → find id (insert id new entries) ≡ some new
  unfolding insert
  find-insert id new [] h = rw (==_refl id)
  find-insert id new ((key, value) ∷ entries) h =
      let e : (key == id) ≡ false = ground (arith, h.0) in
      let f : ltb id key ≡ false = ground (arith, h.0) in
      rw (e, f, e) (find-insert id new entries h.1)

  -- The other keys keep their values.
  pub find-insert_other :
      (other id : ℕ) (new : T) (entries : List (ℕ × T))
      → other < id
      → find other (insert id new entries) ≡ find other entries
  unfolding insert
  find-insert_other other id new [] l = let d : (id == other) ≡ false = ground arith in rw d
  find-insert_other other id new ((key, value) ∷ entries) l =
      let d : (id == other) ≡ false = ground arith in
      elim (Bool-cases (key == id)) [
        | inl e ↦ rw e refl
        | inr e ↦ elim (Bool-cases (ltb id key)) [
          | inl f ↦ rw (e, f, d) refl
          | inr f ↦ rw (e, f, find-insert_other other id new entries l) refl
        ]
      ]
