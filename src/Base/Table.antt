-- ===== src/Base/Table.antt =====
-- A test that is true of every number under a bound, as for the 256 values of a byte.
use Prim.Native.Nat.{ℕ, zero, suc, ◌<◌}
use mathlib.Core.Path.{◌≡◌}
use mathlib.Core.Bool.{Bool, true, ◌&&◌}
use native.Mathlib.Omega.{arith}

unfoldable pub holds_under : (ℕ → Bool) → ℕ → Bool
holds_under test zero = true
holds_under test (suc bound) = holds_under test bound && test bound

pub holds_at :
    (test : ℕ → Bool) (bound value : ℕ)
    → value < bound
    → holds_under test bound ≡ true
    → test value ≡ true
unfolding holds_under
holds_at test zero value small all = absurd (omega arith)
holds_at test (suc bound) value small all = ground (arith, holds_at test bound value)
