-- ===== src/Prelude/Sweep.antt =====
-- Tests by computation: at every number below a bound, on lists of numbers, and on the parts of a
-- conjunction.
use Prim.Native.Nat.{ℕ, zero, suc, ◌<◌}
use mathlib.Core.Path.{◌≡◌, refl}
use bnl.Prelude.Tests.{◌==◌, ==→eq}
use mathlib.Core.List.{List, [], ◌∷◌}
use mathlib.Core.Bool.{Bool, true, false, ◌&&◌, ◌||◌}
use native.Mathlib.Omega.{arith}
use native.Mathlib.Decide.{ℕ_discrete}

abbrev pub below : ℕ → (ℕ → Bool) → Bool
below zero test = true
below (suc n) test = test n && below n test

pub and-left : (a b : Bool) → (a && b) ≡ true → a ≡ true
and-left true b h = refl
and-left false b h = h

pub and-right : (a b : Bool) → (a && b) ≡ true → b ≡ true
and-right true b h = h
and-right false b h = cc

pub below-at : (n k : ℕ) (test : ℕ → Bool) → below n test ≡ true → k < n → test k ≡ true
below-at zero k test h l = absurd (omega arith)
below-at (suc n) k test h l = elim (ℕ_discrete k n) [
  | yes e ↦ rw e (and-left _ _ h)
  | no e ↦ below-at n k test (and-right (test n) _ h) (omega arith)
]

abbrev pub same : List ℕ → List ℕ → Bool
same [] [] = true
same (x ∷ xs) (y ∷ ys) = (x == y) && same xs ys
same [] (y ∷ ys) = false
same (x ∷ xs) [] = false

pub same→eq : (xs ys : List ℕ) → same xs ys ≡ true → xs ≡ ys
same→eq [] [] h = refl
same→eq (x ∷ xs) (y ∷ ys) h =
    let e = ==→eq x y (and-left _ _ h) in let f = same→eq xs ys (and-right (x == y) _ h) in cc
same→eq [] (y ∷ ys) h = cc
same→eq (x ∷ xs) [] h = cc

pub or-false : (a b : Bool) → (a || b) ≡ true → a ≡ false → b ≡ true
or-false true b h e = cc
or-false false b h e = h

-- `a` implies `b`.
abbrev pub implies : Bool → Bool → Bool
implies true b = b
implies false b = true

pub implied : (a b : Bool) → implies a b ≡ true → a ≡ true → b ≡ true
implied true b h e = h
implied false b h e = cc
