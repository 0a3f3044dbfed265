-- ===== src/Base/Int.antt =====
-- An int and an int64 are their 64 bits: a number from 2 ^ 63 on stands for a negative one.
use Prim.Native.Nat.{ℕ, ◌<◌}
use mathlib.Core.Path.{◌≡◌}
use mathlib.Core.Bool.{Bool, false, ◌||◌}
use native.Mathlib.Omega.{arith}
use page_spy_api.Base.Tests.{eqb, leb}

-- n <= 0
abbrev pub at_most_zero : ℕ → Bool
at_most_zero n = eqb n 0 || leb 9223372036854775808 n

pub at_most_zero-positive : (n : ℕ) → 0 < n → n < 9223372036854775808 → at_most_zero n ≡ false
at_most_zero-positive n h k = ground arith
