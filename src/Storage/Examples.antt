-- ===== src/Storage/Examples.antt =====
-- Buffers that are created, cut and destroyed, and the theorems on them.
use bnl.Prelude.{ℕ, ◌≤◌, ◌≡◌, refl, arith, List, [], ◌∷◌, take, drop, some, replicate}
use bnl.Storage.{
  absent, counted, Store, Buffer, inline, slice_of, set, contents, size, create, consume, destroy,
  slice,
}
use bnl.Storage.Reach.{
  Deleted, created, cut, destroyed, no_blocks, Reachable, begun, after, Sound, Reachable-Sound,
  Reachable-releases, Reachable-no_leak,
}
use bnl.Storage.Slices.{contents-slice}

abbrev long : List ℕ
long = 9 ∷ replicate 24 7

-- The block of 25 bytes with one reference, with two, and deleted.
abbrev one_block : Store
one_block = record (set 0 (counted 1 long) no_blocks) { next = 1 }

abbrev shared_block : Store
shared_block = set 0 (counted 2 long) one_block

abbrev deleted_block : Store
deleted_block = set 0 absent one_block

created-Reachable : Reachable one_block (slice_of 0 0 25 ∷ [])
unfolding create
created-Reachable =
    after no_blocks one_block [] (slice_of 0 0 25 ∷ []) begun (created long no_blocks [])
      (omega arith)

cut_large :
    slice 21 (slice_of 0 0 25) one_block ≡ some (slice_of 0 0 21, slice_of 0 21 25, shared_block)
unfolding slice
cut_large = refl

-- Of at most 20 bytes a copy is made.
cut_small :
    slice 2 (slice_of 0 0 25) one_block ≡ some (inline (9 ∷ 7 ∷ []), slice_of 0 2 25, one_block)
unfolding slice
cut_small = refl

enough : 21 ≤ size (slice_of 0 0 25)
unfolding size
enough = omega arith

shared-Reachable : Reachable shared_block (slice_of 0 0 21 ∷ slice_of 0 21 25 ∷ [])
shared-Reachable =
    after one_block shared_block (slice_of 0 0 25 ∷ []) (slice_of 0 0 21 ∷ slice_of 0 21 25 ∷ [])
      created-Reachable
      (cut 21 (slice_of 0 0 25) (slice_of 0 0 21) (slice_of 0 21 25) one_block shared_block []
        enough cut_large)
      (omega arith)

Reachable-Sound_example : Sound shared_block (slice_of 0 0 21 ∷ slice_of 0 21 25 ∷ [])
Reachable-Sound_example =
    Reachable-Sound shared_block (slice_of 0 0 21 ∷ slice_of 0 21 25 ∷ []) shared-Reachable

cut_again : 1 ≤ size (slice_of 0 0 21)
unfolding size
cut_again = omega arith

Reachable-releases_example :
    ((kept : Store) × (destroy (slice_of 0 0 21) shared_block ≡ some kept))
    × ((part : Buffer) × (kept : Store) × (slice 1 (slice_of 0 0 21) shared_block
          ≡ some (part, consume 1 (slice_of 0 0 21), kept)))
Reachable-releases_example =
    Reachable-releases shared_block (slice_of 0 0 21) (slice_of 0 21 25 ∷ []) 1 shared-Reachable
      cut_again (omega arith)

destroyed_last : destroy (slice_of 0 0 25) one_block ≡ some deleted_block
unfolding destroy
destroyed_last = refl

deleted-Reachable : Reachable deleted_block []
deleted-Reachable =
    after one_block deleted_block (slice_of 0 0 25 ∷ []) [] created-Reachable
      (destroyed (slice_of 0 0 25) one_block deleted_block [] destroyed_last) (omega arith)

Reachable-no_leak_example : Deleted deleted_block
Reachable-no_leak_example = Reachable-no_leak deleted_block deleted-Reachable

contents-slice_example :
    (contents shared_block (slice_of 0 0 21) ≡ take 21 (contents one_block (slice_of 0 0 25)))
    × (contents shared_block (slice_of 0 21 25) ≡ drop 21 (contents one_block (slice_of 0 0 25)))
contents-slice_example =
    contents-slice 21 (slice_of 0 0 25) (slice_of 0 0 21) (slice_of 0 21 25) one_block shared_block
      enough cut_large
