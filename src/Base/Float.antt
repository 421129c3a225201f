-- ===== src/Base/Float.antt =====
-- float64 values as their IEEE 754 bit patterns (`math.Float64bits`). The order is defined on the
-- patterns; the arithmetic is a parameter.
use Prim.Native.Nat.{ℕ, ◌+◌, ◌-◌, ◌*◌, ◌%◌, ◌^◌}
use mathlib.Core.Bool.{Bool, not, ◌&&◌}
use gobol.Base.Tests.{ltb, if◌then◌else◌, ◌==◌}

-- The sixty-four bits of a float64, below 2 ^ 64.
abbrev pub Float64 : Type 0
Float64 = ℕ

-- The bits but for the sign.
abbrev magnitude : Float64 → ℕ
magnitude x = x % 2 ^ 63

unfoldable pub is_nan : Float64 → Bool
is_nan x = ltb (2047 * 2 ^ 52) (magnitude x)

-- A position on the number line: both zeros stand at 2 ^ 63.
unfoldable pub rank : Float64 → ℕ
rank x = if ltb x (2 ^ 63) then 2 ^ 63 + x else 2 ^ 63 - magnitude x

-- x < y
unfoldable pub float_lt : Float64 → Float64 → Bool
unfolding is_nan rank
float_lt x y = not (is_nan x) && not (is_nan y) && ltb (rank x) (rank y)

-- +0
abbrev pub float_zero : Float64
float_zero = 0

-- x == y
unfoldable pub float_eq : Float64 → Float64 → Bool
unfolding is_nan rank
float_eq x y = not (is_nan x) && not (is_nan y) && (rank x == rank y)

-- The arithmetic of the hardware: addition, division, and the conversion of an integer.
pub record FloatOps : Type 0 where
  pub add : Float64 → Float64 → Float64
  pub div : Float64 → Float64 → Float64
  pub of_int : ℕ → Float64
