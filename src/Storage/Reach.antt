-- ===== src/Storage/Reach.antt =====
-- Every sequence of operations on buffers.
use bnl.Prelude.{
  ℕ, ◌+◌, ◌^◌, ◌<◌, ◌≤◌, length, ◌≡◌, refl, sym, arith, List, [], ◌∷◌, ◌++◌, length-drop, Option,
  none, some, All,
}
use bnl.Storage.{
  Block, absent, counted, Store, Buffer, null, inline, slice_of, size, create, consume, destroy,
  slice,
}
use bnl.Storage.Counts.{
  references, Counted, Fits, Small, references-move, create-Counted, destroy-Counted,
  consume-Counted, slice-Counted, create-Small, relisted,
}

-- What the program does with its buffers: one is created, cut, consumed from or destroyed. A buffer
-- that is moved changes its place in the list.
pub data Step : Store → List Buffer → Store → List Buffer → Type 0 where
  created :
      (bytes : List ℕ) (s : Store) (bs : List Buffer)
      → Step s bs (create bytes s).1 ((create bytes s).0 ∷ bs)
  cut :
      (n : ℕ) (b part rest : Buffer) (s kept : Store) (bs : List Buffer)
      → n ≤ size b
      → slice n b s ≡ some (part, rest, kept)
      → Step s (b ∷ bs) kept (part ∷ rest ∷ bs)
  consumed :
      (n : ℕ) (b : Buffer) (s : Store) (bs : List Buffer)
      → n ≤ size b
      → Step s (b ∷ bs) s (consume n b ∷ bs)
  destroyed :
      (b : Buffer) (s kept : Store) (bs : List Buffer)
      → destroy b s ≡ some kept
      → Step s (b ∷ bs) kept bs
  moved :
      (b : Buffer) (s : Store) (before after : List Buffer)
      → Step s (before ++ (b ∷ after)) s (b ∷ before ++ after)

abbrev pub no_blocks : Store
no_blocks = record { next = 0; block = λ a. absent }

-- The stores and the lists of buffers that the program gets to, with less than 2^32 buffers at any
-- time: the reference counts are of type uint32_t.
pub data Reachable : Store → List Buffer → Type 0 where
  begun : Reachable no_blocks []
  after :
      (s later : Store) (bs result : List Buffer)
      → Reachable s bs
      → Step s bs later result
      → length result < 2 ^ 32
      → Reachable later result

-- The counts fit, and no buffer has more bytes in itself than it can.
pub record Sound (s : Store) (bs : List Buffer) : Type 0 where
  pub counts : Counted s bs
  pub small : All Small bs

consume-Small : (n : ℕ) (b : Buffer) → Small b → Small (consume n b)
unfolding consume
consume-Small n null m = tt
consume-Small n (inline bytes) m = omega (arith, length-drop n bytes)
consume-Small n (slice_of address first last) m = tt

Small-move :
    (b : Buffer) (before rest : List Buffer)
    → All Small (before ++ (b ∷ rest))
    → All Small (b ∷ before ++ rest)
Small-move b [] rest a = a
Small-move b (x ∷ before) rest (m, a) = let (z, w) = Small-move b before rest a in (z, (m, w))

-- What a cut leaves, and what the destruction of a buffer leaves.
abbrev Cut : List Buffer → Option (Buffer × Buffer × Store) → Type 0
Cut bs none = Unit {0}
Cut bs (some (part, rest, kept)) = Sound kept (part ∷ rest ∷ bs)

abbrev Left : List Buffer → Option Store → Type 0
Left bs none = Unit {0}
Left bs (some kept) = Sound kept bs

step-Sound :
    (s later : Store) (bs result : List Buffer)
    → Step s bs later result
    → length bs < 2 ^ 32
    → length result < 2 ^ 32
    → Sound s bs
    → Sound later result
step-Sound s later bs result (created bytes _ _) u v w = record {
  counts = create-Counted bytes s bs w.counts;
  small = (create-Small bytes s, w.small);
}
step-Sound s later (_ ∷ bs) result (cut n b part rest _ _ _ l h) u v w =
    let (x, y, r, d, z) = slice-Counted n b s bs w.counts w.small.0 l (omega arith) in
    let k : Sound y (x ∷ consume n b ∷ bs) = record {
      counts = d;
      small = (z, (consume-Small n b w.small.0, w.small.1));
    } in
    let c : Cut bs (slice n b s) = rw r k in rw h at c
step-Sound s later (_ ∷ bs) result (consumed n b _ _ l) u v w = record {
  counts = consume-Counted n b s bs w.counts;
  small = (consume-Small n b w.small.0, w.small.1);
}
step-Sound s later (_ ∷ bs) result (destroyed b _ _ _ h) u v w =
    let (y, r, d) = destroy-Counted b s bs w.counts (omega arith) in
    let k : Sound y bs = record { counts = d; small = w.small.1 } in
    let c : Left bs (destroy b s) = rw r k in rw h at c
step-Sound s later _ result (moved b _ before rest) u v w = record {
  counts =
      relisted s (before ++ (b ∷ rest)) (b ∷ before ++ rest) w.counts
        (λ a. sym (references-move a b before rest));
  small = Small-move b before rest w.small;
}

Reachable_few : (s : Store) (bs : List Buffer) → Reachable s bs → length bs < 2 ^ 32
Reachable_few s bs begun = omega arith
Reachable_few s bs (after before _ queue _ r step few) = few

-- Whatever the program does with its buffers, the reference count of every block is the number of
-- buffers that refer to it, and a block without such a buffer does not exist: while there are less
-- than 2^32 buffers.
pub Reachable-Sound : (s : Store) (bs : List Buffer) → Reachable s bs → Sound s bs
unfolding references
Reachable-Sound s bs begun = record {
  counts = record { fits = λ a. refl; fresh = λ a l. refl };
  small = tt;
}
Reachable-Sound s bs (after before _ queue _ r step few) =
    step-Sound before s queue bs step (Reachable_few before queue r) few
      (Reachable-Sound before queue r)

-- In a reachable state every buffer can be destroyed, and cut at any size that it has, if that
-- leaves less than 2^32 buffers: the count that is read is that of a block that has not been
-- deleted. There have been less than 2^32 buffers at any time.
pub Reachable-releases :
    (s : Store) (b : Buffer) (bs : List Buffer) (n : ℕ)
    → Reachable s (b ∷ bs)
    → n ≤ size b
    → length bs + 2 < 2 ^ 32
    → ((kept : Store) × (destroy b s ≡ some kept))
      × ((part : Buffer) × (kept : Store) × (slice n b s ≡ some (part, consume n b, kept)))
Reachable-releases s b bs n r l few =
    let w = Reachable-Sound s (b ∷ bs) r in
    let (kept, e, c) = destroy-Counted b s bs w.counts (omega arith) in
    let (part, later, q, d, z) = slice-Counted n b s bs w.counts w.small.0 l few in
    ((kept, e), (part, later, q))

Fits-nothing : (block : Block) → Fits block 0 → block ≡ absent
Fits-nothing absent f = refl
Fits-nothing (counted count bytes) f = absurd (omega (arith, f.1))

-- No address holds a block.
pub record Deleted (s : Store) : Type 0 where
  pub no_block : (address : ℕ) → s.block address ≡ absent

-- When no buffer is left, every block has been deleted, if there have been less than 2^32 buffers
-- at any time.
pub Reachable-no_leak : (s : Store) → Reachable s [] → Deleted s
unfolding references
Reachable-no_leak s r = record {
  no_block =
      λ address. Fits-nothing (s.block address) ((Reachable-Sound s [] r).counts.fits address);
}
