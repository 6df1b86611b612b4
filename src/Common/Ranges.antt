-- ===== src/Common/Ranges.antt =====
-- Tests that hold of every number under a limit.
use Prim.Native.Nat.{ℕ, zero, suc, ◌<◌}
use mathlib.Core.Path.{◌≡◌}
use mathlib.Core.Bool.{Bool, true, ◌&&◌}
use native.Mathlib.Omega.{arith}
use native.Mathlib.Decide.{ℕ_discrete}
use znode.Common.Bytes.{and_true}

-- A test of every number under a limit, which evaluation decides.
unfoldable pub each_under : (ℕ → Bool) → ℕ → Bool
each_under test zero = true
each_under test (suc limit) = each_under test limit && test limit

pub each_under-holds :
    (test : ℕ → Bool) (limit n : ℕ) → each_under test limit ≡ true → n < limit → test n ≡ true
unfolding each_under
each_under-holds test zero n all small = absurd (omega arith)
each_under-holds test (suc limit) n all small =
    let (before, last) = and_true (each_under test limit) (test limit) all in
    elim (ℕ_discrete n limit) [
      | yes e ↦ rw (e) last
      | no other ↦ each_under-holds test limit n before (omega arith)
    ]
