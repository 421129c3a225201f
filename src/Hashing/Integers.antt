-- ===== src/Hashing/Integers.antt =====
-- The eight bytes of a number, and the number that they spell.
use mathlib.Core.List.{foldl}
use gobol.Base.{ap, sym, ◌∙◌, ℕ, ◌+◌, ◌*◌, ◌^◌, ◌<◌, ◌≡◌, refl, arith, All, length}
use gobol.Base.Text.{Bytes}
use gobol.Base.Int.{ℤ, pos, negsuc, IsInt64, to_uint64}
use gobol.Hashing.Convert.{int64_to_byte_array, uint64_to_byte_array}

-- The number that bytes spell, the most significant first.
abbrev pub big_endian : Bytes → ℕ
big_endian = foldl (λ n b. n * 256 + b) 0

abbrev pub IsByte : ℕ → Type 0
IsByte b = b < 256

-- The bytes of a uint64 spell it: eight bytes, each below 256.
pub uint64_to_byte_array_lem :
    (x : ℕ)
    → x < 2 ^ 64
    → (big_endian (uint64_to_byte_array x) ≡ x)
      × (length (uint64_to_byte_array x) ≡ 8)
      × All IsByte (uint64_to_byte_array x)
unfolding uint64_to_byte_array
uint64_to_byte_array_lem x h = (omega arith, refl, omega arith)

to_uint64-lt : (i : ℤ) → IsInt64 i → to_uint64 i < 2 ^ 64
to_uint64-lt (pos n) h = omega arith
to_uint64-lt (negsuc n) h = omega arith

pub to_uint64-injective : (i j : ℤ) → IsInt64 i → IsInt64 j → to_uint64 i ≡ to_uint64 j → i ≡ j
to_uint64-injective (pos m) (pos n) h k e = ap pos e
to_uint64-injective (pos m) (negsuc n) h k e = absurd (omega arith)
to_uint64-injective (negsuc m) (pos n) h k e = absurd (omega arith)
to_uint64-injective (negsuc m) (negsuc n) h k e = ap negsuc (omega arith)

pub big_endian-int64 : (i : ℤ) → IsInt64 i → big_endian (int64_to_byte_array i) ≡ to_uint64 i
unfolding int64_to_byte_array uint64_to_byte_array
big_endian-int64 i h = (uint64_to_byte_array_lem (to_uint64 i) (to_uint64-lt i h)).0

-- Two int64 values, negative ones included, with the same bytes are the same.
pub int64_to_byte_array-injective :
    (i j : ℤ) → IsInt64 i → IsInt64 j → int64_to_byte_array i ≡ int64_to_byte_array j → i ≡ j
int64_to_byte_array-injective i j h k e =
    to_uint64-injective i j h k
      (sym (big_endian-int64 i h) ∙ ap big_endian e ∙ big_endian-int64 j k)
