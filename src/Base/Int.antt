-- ===== src/Base/Int.antt =====
-- Signed integers over the native numbers.
use Prim.Native.Nat.{ℕ, suc, ◌-◌, ◌^◌, ◌<◌}
use mathlib.Core.Path.{◌≡◌}
use mathlib.Core.List.{◌∷◌}
use mathlib.Core.Bool.{Bool, true, false}
use native.Mathlib.Omega.{arith}
use gobol.Base.Tests.{ltb}
use gobol.Base.Text.{GoString, itoa}
use gobol.Base.Order.{IsStrictOrder}

-- `negsuc n` is -(n + 1).
pub data ℤ : Type 0 where
  pos : ℕ → ℤ
  negsuc : ℕ → ℤ

unfoldable pub int_lt : ℤ → ℤ → Bool
int_lt (pos a) (pos b) = ltb a b
int_lt (pos a) (negsuc b) = false
int_lt (negsuc a) (pos b) = true
int_lt (negsuc a) (negsuc b) = ltb b a

int_lt-asymm : (a b : ℤ) → int_lt a b ≡ true → int_lt b a ≡ false
unfolding int_lt
int_lt-asymm a b h = ground arith

int_lt_trans : (a b c : ℤ) → int_lt a b ≡ true → int_lt b c ≡ true → int_lt a c ≡ true
unfolding int_lt
int_lt_trans a b c h k = ground arith

int_lt-total : (a b : ℤ) → int_lt a b ≡ false → int_lt b a ≡ false → a ≡ b
unfolding int_lt
int_lt-total a b h k = ground arith

pub int_lt-IsStrictOrder : IsStrictOrder int_lt
int_lt-IsStrictOrder = record { asymm = int_lt-asymm; trans = int_lt_trans; total = int_lt-total }

-- The values of an int64.
abbrev pub IsInt64 : ℤ → Type 0
IsInt64 (pos n) = n < 2 ^ 63
IsInt64 (negsuc n) = n < 2 ^ 63

-- uint64(i): the two's complement bit pattern
abbrev pub to_uint64 : ℤ → ℕ
to_uint64 (pos n) = n
to_uint64 (negsuc n) = 2 ^ 64 - suc n

-- strconv.Itoa on an int
unfoldable pub int_itoa : ℤ → GoString
int_itoa (pos n) = itoa n
int_itoa (negsuc n) = b'-' ∷ itoa (suc n)
