-- ===== src/Storage/Counts.antt =====
-- The reference counts.
use bnl.Prelude.{
  ℕ, ◌+◌, ◌-◌, ◌%◌, ◌^◌, ◌≤◌, ◌<◌, ◌≡◌, ◌≢◌, refl, sym, ap, ◌∙◌, arith, true, false, Bool-cases,
  inl, inr, List, [], ◌∷◌, ◌++◌, length, take, some, leb, leb→le, ◌==◌, ==→eq, if◌then◌else◌,
}
use bnl.Storage.{
  Block, absent, counted, Store, Buffer, null, inline, slice_of, set, contents, size, create,
  consume, destroy, release, retain, slice_part, slice_large, slice, sso_threshold,
}

-- How many buffers of a list refer to a block.
unfoldable pub refers : ℕ → Buffer → ℕ
refers address null = 0
refers address (inline bytes) = 0
refers address (slice_of at first last) = if address == at then 1 else 0

unfoldable pub references : ℕ → List Buffer → ℕ
unfolding refers
references address [] = 0
references address (b ∷ bs) = refers address b + references address bs

-- A count that fits a number of references: a block is there exactly if it has one.
abbrev pub Fits : Block → ℕ → Type 0
Fits absent n = n ≡ 0
Fits (counted count bytes) n = (count ≡ n) × (0 < n)

-- All counts fit the buffers that exist, and no block stands behind `next`.
pub record Counted (s : Store) (bs : List Buffer) : Type 0 where
  pub fits : (address : ℕ) → Fits (s.block address) (references address bs)
  pub fresh : (address : ℕ) → s.next ≤ address → s.block address ≡ absent

pub references-move :
    (address : ℕ) (b : Buffer) (before after : List Buffer)
    → references address (before ++ (b ∷ after)) ≡ references address (b ∷ before ++ after)
unfolding references
references-move address b [] after = refl
references-move address b (x ∷ before) after = omega (arith, references-move address b before after)

refers-consume : (address n : ℕ) (b : Buffer) → refers address (consume n b) ≡ refers address b
unfolding refers consume
refers-consume address n null = refl
refers-consume address n (inline bytes) = refl
refers-consume address n (slice_of at first last) = refl

-- A block that is set, beside the others.
set-Fits :
    (address : ℕ) (new : Block) (s : Store) (bs later : List Buffer)
    → Counted s bs
    → Fits new (references address later)
    → ((a : ℕ) → a ≢ address → references a later ≡ references a bs)
    → (a : ℕ) → Fits (if a == address then new else s.block a) (references a later)
set-Fits address new s bs later c f same a = elim (Bool-cases (a == address)) [
  | inl e ↦ let e' = ==→eq a address e in rw (e, e') f
  | inr e ↦
      let differ : a ≢ address = λ e'. not-both a address e e' in rw (e, same a differ) (c.fits a)
]
  where
    not-both : (a b : ℕ) → (a == b) ≡ false → a ≡ b → ⊥
    not-both a b e e' = ground arith

-- The same references, as far as the store goes.
pub relisted :
    (s : Store) (bs later : List Buffer)
    → Counted s bs
    → ((a : ℕ) → references a later ≡ references a bs)
    → Counted s later
relisted s bs later c same = record { fits = λ a. rw (same a) (c.fits a); fresh = c.fresh }

eq→== : (a b : ℕ) → a ≡ b → (a == b) ≡ true
eq→== a b h = ground arith

ne→== : (a b : ℕ) → a ≢ b → (a == b) ≡ false
ne→== a b h = ground arith

refers-own : (address first last : ℕ) → refers address (slice_of address first last) ≡ 1
unfolding refers
refers-own address first last = rw (eq→== address address refl) refl

refers-other : (a address first last : ℕ) → a ≢ address → refers a (slice_of address first last) ≡ 0
unfolding refers
refers-other a address first last h = rw (ne→== a address h) refl

references-own :
    (address first last : ℕ) (bs : List Buffer)
    → references address (slice_of address first last ∷ bs) ≡ 1 + references address bs
unfolding references
references-own address first last bs = omega (arith, refers-own address first last)

references-other :
    (a address first last : ℕ) (bs : List Buffer)
    → a ≢ address
    → references a (slice_of address first last ∷ bs) ≡ references a bs
unfolding references
references-other a address first last bs h = omega (arith, refers-other a address first last h)

references-inline :
    (a : ℕ) (bytes : List ℕ) (bs : List Buffer) → references a (inline bytes ∷ bs) ≡ references a bs
unfolding references refers
references-inline a bytes bs = omega arith

references-null : (a : ℕ) (bs : List Buffer) → references a (null ∷ bs) ≡ references a bs
unfolding references refers
references-null a bs = omega arith

pub create-Counted :
    (bytes : List ℕ) (s : Store) (bs : List Buffer)
    → Counted s bs
    → Counted (create bytes s).1 ((create bytes s).0 ∷ bs)
unfolding create
create-Counted bytes s bs c = elim (Bool-cases (leb (length bytes) sso_threshold)) [
  | inl e ↦ rw e (relisted s bs (inline bytes ∷ bs) c (λ a. references-inline a bytes bs))
  | inr e ↦ rw e (record {
    fits =
        set-Fits s.next (counted 1 bytes) s bs (slice_of s.next 0 (length bytes) ∷ bs) c
          (none_before (s.block s.next) (c.fresh s.next (omega arith)) (c.fits s.next))
          (λ a h. references-other a s.next 0 (length bytes) bs h);
    fresh = λ a l. rw (ne→== a s.next (λ q. omega arith)) (c.fresh a (omega arith));
  })
]
  where
    none_before :
        (block : Block)
        → block ≡ absent
        → Fits block (references s.next bs)
        → (1 ≡ references s.next (slice_of s.next 0 (length bytes) ∷ bs))
          × (0 < references s.next (slice_of s.next 0 (length bytes) ∷ bs))
    none_before absent e f =
        let r = references-own s.next 0 (length bytes) bs in (omega arith, omega arith)
    none_before (counted count kept) e f = cc

refers_le : (address : ℕ) (b : Buffer) → refers address b ≤ 1
unfolding refers
refers_le address null = omega arith
refers_le address (inline bytes) = omega arith
refers_le address (slice_of at first last) = ground arith

references_le : (address : ℕ) (bs : List Buffer) → references address bs ≤ length bs
unfolding references
references_le address [] = omega arith
references_le address (b ∷ bs) = omega (arith, refers_le address b, references_le address bs)

-- A block with references, under the count that it has.
present :
    (block : Block) (n : ℕ) → Fits block n → 0 < n → (bytes : List ℕ) × (block ≡ counted n bytes)
present absent n f p = absurd (omega arith)
present (counted count bytes) n (e, q) p = (bytes, rw e refl)

own_present :
    (s : Store) (address first last : ℕ) (bs : List Buffer)
    → Counted s (slice_of address first last ∷ bs)
    → (bytes : List ℕ) × (s.block address ≡ counted (1 + references address bs) bytes)
own_present s address first last bs c =
    let r = references-own address first last bs in
    let (bytes, e) =
      present (s.block address) (references address (slice_of address first last ∷ bs))
        (c.fits address) (omega arith) in
    (bytes, rw (← r) e)

absent-ne-counted : (n : ℕ) (kept : List ℕ) → absent ≡ counted n kept → ⊥
absent-ne-counted n kept e = cc

-- A buffer that is destroyed: its block is there, and it is deleted with the last reference to it.
pub destroy-Counted :
    (b : Buffer) (s : Store) (bs : List Buffer)
    → Counted s (b ∷ bs)
    → length bs < 2 ^ 32
    → (kept : Store) × (destroy b s ≡ some kept) × Counted kept bs
unfolding destroy release
destroy-Counted null s bs c h =
    (s, refl, relisted s (null ∷ bs) bs c (λ a. sym (references-null a bs)))
destroy-Counted (inline bytes) s bs c h =
    (s, refl, relisted s (inline bytes ∷ bs) bs c (λ a. sym (references-inline a bytes bs)))
destroy-Counted (slice_of address first last) s bs c h =
    let (bytes, e) = own_present s address first last bs c in
    let left = references address bs in
    let less : (1 + left + (2 ^ 32 - 1)) % 2 ^ 32 ≡ left =
      omega (arith, references_le address bs) in
    (
      set address (if left == 0 then absent else counted left bytes) s,
      rw (e, less) refl,
      record {
        fits =
            set-Fits address (if left == 0 then absent else counted left bytes) s
              (slice_of address first last ∷ bs) bs c (fits_left left bytes)
              (λ a h. sym (references-other a address first last bs h));
        fresh = λ a l.
            rw (ne→== a address (λ q. absent-ne-counted _ _ (sym (c.fresh a l) ∙ ap s.block q ∙ e)))
              (c.fresh a l);
      },
    )
  where
    fits_left : (n : ℕ) (kept : List ℕ) → Fits (if n == 0 then absent else counted n kept) n
    fits_left n kept = elim (Bool-cases (n == 0)) [
      | inl e ↦ rw e (==→eq n 0 e)
      | inr e ↦ rw e (refl, ground arith)
    ]

-- A block with one reference more.
retain-Counted :
    (address first last n : ℕ) (s : Store) (bs : List Buffer)
    → Counted s (slice_of address first last ∷ bs)
    → length bs + 2 < 2 ^ 32
    → (kept : Store) × (retain address (s.block address) s ≡ some kept)
      × Counted kept (slice_of address first (first + n) ∷ slice_of address (first + n) last ∷ bs)
unfolding retain
retain-Counted address first last n s bs c h =
    let (bytes, e) = own_present s address first last bs c in
    let count = (1 + references address bs + 1) % 2 ^ 32 in
    let one = references-own address (first + n) last bs in
    let two = references-own address first (first + n) (slice_of address (first + n) last ∷ bs) in
    let twice : count
        ≡ references address
            (slice_of address first (first + n) ∷ slice_of address (first + n) last ∷ bs) =
      omega (arith, references_le address bs) in
    (
      set address (counted count bytes) s,
      rw e refl,
      record {
        fits =
            set-Fits address (counted count bytes) s (slice_of address first last ∷ bs)
              (slice_of address first (first + n) ∷ slice_of address (first + n) last ∷ bs) c
              (twice, omega (arith, twice))
              (λ a h.
                references-other a address first (first + n) _ h
                ∙ references-other a address (first + n) last bs h
                ∙ sym (references-other a address first last bs h));
        fresh = λ a l.
            rw (ne→== a address (λ q. absent-ne-counted _ _ (sym (c.fresh a l) ∙ ap s.block q ∙ e)))
              (c.fresh a l);
      },
    )

pub consume-Counted :
    (n : ℕ) (b : Buffer) (s : Store) (bs : List Buffer)
    → Counted s (b ∷ bs)
    → Counted s (consume n b ∷ bs)
unfolding references
consume-Counted n b s bs c =
    relisted s (b ∷ bs) (consume n b ∷ bs) c
      (λ a. ap (λ (k : ℕ). k + references a bs) (refers-consume a n b))

swap-Counted :
    (b b' : Buffer) (s : Store) (bs : List Buffer)
    → Counted s (b ∷ b' ∷ bs)
    → Counted s (b' ∷ b ∷ bs)
unfolding references
swap-Counted b b' s bs c = relisted s (b ∷ b' ∷ bs) (b' ∷ b ∷ bs) c (λ a. omega arith)

-- The buffers that can be cut: the size is checked by an assertion, and a buffer whose bytes stand
-- in itself has few.
abbrev pub Small : Buffer → Type 0
Small null = Unit {0}
Small (inline bytes) = length bytes ≤ sso_threshold
Small (slice_of address first last) = Unit {0}

pub create-Small : (bytes : List ℕ) (s : Store) → Small (create bytes s).0
unfolding create
create-Small bytes s = elim (Bool-cases (leb (length bytes) sso_threshold)) [
  | inl e ↦ rw e (leb→le (length bytes) sso_threshold e)
  | inr e ↦ rw e tt
]

slice_large-Counted :
    (n : ℕ) (b : Buffer) (s : Store) (bs : List Buffer)
    → Counted s (b ∷ bs)
    → Small b
    → n ≤ size b
    → sso_threshold < n
    → length bs + 2 < 2 ^ 32
    → (part : Buffer) × (kept : Store) × (slice_large n b s ≡ some (part, kept))
      × Counted kept (part ∷ consume n b ∷ bs)
      × Small part
unfolding slice_large size consume
slice_large-Counted n null s bs c m l h w = absurd (omega arith)
slice_large-Counted n (inline bytes) s bs c m l h w = absurd (omega arith)
slice_large-Counted n (slice_of address first last) s bs c m l h w =
    let (kept, r, d) = retain-Counted address first last n s bs c w in
    (slice_of address first (first + n), kept, rw (slice_large, r) refl, d, tt)

leb→lt : (n most : ℕ) → leb n most ≡ false → most < n
leb→lt n most h = ground arith

slice_part-Counted :
    (n : ℕ) (b : Buffer) (s : Store) (bs : List Buffer)
    → Counted s (b ∷ bs)
    → Small b
    → n ≤ size b
    → length bs + 2 < 2 ^ 32
    → (part : Buffer) × (kept : Store) × (slice_part n b s ≡ some (part, kept))
      × Counted kept (part ∷ consume n b ∷ bs)
      × Small part
unfolding slice_part
slice_part-Counted n b s bs c m l w = elim (Bool-cases (n == 0)) [
  | inl e ↦ (
    null,
    s,
    rw e refl,
    relisted s (consume n b ∷ bs) (null ∷ consume n b ∷ bs) (consume-Counted n b s bs c)
        (λ a. references-null a (consume n b ∷ bs)),
    tt,
  )
  | inr e ↦ elim (Bool-cases (leb n sso_threshold)) [
    | inl f ↦ (
      (create (take n (contents s b)) s).0,
      (create (take n (contents s b)) s).1,
      rw (e, f) refl,
      create-Counted (take n (contents s b)) s (consume n b ∷ bs) (consume-Counted n b s bs c),
      create-Small (take n (contents s b)) s,
    )
    | inr f ↦
        let (part, kept, r, d, z) =
          slice_large-Counted n b s bs c m l (leb→lt n sso_threshold f) w in
        (part, kept, rw (e, f) r, d, z)
  ]
]

-- `slice` finds the count of the block, and all counts fit behind it.
pub slice-Counted :
    (n : ℕ) (b : Buffer) (s : Store) (bs : List Buffer)
    → Counted s (b ∷ bs)
    → Small b
    → n ≤ size b
    → length bs + 2 < 2 ^ 32
    → (part : Buffer) × (kept : Store) × (slice n b s ≡ some (part, consume n b, kept))
      × Counted kept (part ∷ consume n b ∷ bs)
      × Small part
unfolding slice
slice-Counted n b s bs c m l w =
    let (part, kept, r, d, z) = slice_part-Counted n b s bs c m l w in
    (part, kept, rw (slice, r) refl, d, z)
