-- ===== src/Prelude/Below.antt =====
-- The order of the native numbers is well founded, by a proof that computes.
use Prim.Native.Nat.{ℕ, zero, suc, ◌<◌}
use mathlib.Core.WellFounded.{Acc, WellFounded}
use native.Mathlib.Omega.{arith}

access : (bound n : ℕ) → n < bound → Acc ◌<◌ n
access zero n h = absurd (omega arith)
access (suc bound) n h = Acc.intro n (λ m less. access bound m (omega arith))

unfoldable pub lt_wf : WellFounded ◌<◌
unfolding access
lt_wf = record { apply = λ n. access (suc n) n (omega arith) }
