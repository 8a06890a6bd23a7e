-- ===== src/Buffers/Examples.antt =====
-- Runs of the buffer queue, and its theorems at concrete inputs.
use bnl.Prelude.{◌≡◌, refl, arith, [], ◌∷◌, take, drop}
use bnl.Buffers.{Buffers, size, consume, slice}
use bnl.Buffers.View.{view, view-consume}
use bnl.Buffers.Slice.{slice-view}
use bnl.Buffers.Window
use bnl.Buffers.Window.{Lookahead}

abbrev three : Buffers
three = [] ∷ (1 ∷ 2 ∷ []) ∷ (3 ∷ 4 ∷ 5 ∷ []) ∷ []

slice_across : slice 3 three ≡ (1 ∷ 2 ∷ 3 ∷ [], (4 ∷ 5 ∷ []) ∷ [])
unfolding slice
slice_across = refl

size_three : size three ≡ 5
unfolding size
size_three = refl

slice-view_example :
    ((slice 3 three).0 ≡ take 3 (view three)) × (view (slice 3 three).1 ≡ drop 3 (view three))
slice-view_example = slice-view 3 three (omega (arith, size_three)) (omega (arith, size_three))

view-consume_example : view (consume 3 three) ≡ drop 3 (view three)
view-consume_example = view-consume 3 three (omega (arith, size_three))

abbrev halfway : Lookahead
halfway = record { bytes = 1 ∷ 2 ∷ 3 ∷ []; previous = 1; position = 1 }
