-- ===== src/Base/Text.antt =====
-- Go strings and byte slices: sequences of bytes, with Go's `==` and `<` on strings.
use Prim.Native.Char.{code}
use Prim.Native.String.{String}
use Prim.Native.Nat.{ℕ, zero, suc, ◌+◌, ◌/◌, ◌%◌, compare, Ordering}
use mathlib.Core.Path.{◌≡◌, refl}
use mathlib.Core.Logic.{◌↔◌}
use mathlib.Core.Bool.{Bool, true, false, ◌&&◌, ◌||◌}
use mathlib.Core.List.{List, [], ◌∷◌}
use native.Mathlib.Omega.{arith}
use gobol.Base.Tests.{◌==◌, ltb, if◌then◌else◌}

abbrev pub GoString : Type 0
GoString = List ℕ

abbrev pub Bytes : Type 0
Bytes = List ℕ

-- The code points of a literal; these are its bytes when the text is ASCII.
abbrev pub codes : String → GoString
codes String.[] = []
codes (String.◌∷◌ c s) = code c ∷ codes s

-- s == t
unfoldable pub str_eq : GoString → GoString → Bool
str_eq [] [] = true
str_eq [] (y ∷ ys) = false
str_eq (x ∷ xs) [] = false
str_eq (x ∷ xs) (y ∷ ys) = x == y && str_eq xs ys

pub str_eq_iff : (s t : GoString) → (str_eq s t ≡ true) ↔ (s ≡ t)
unfolding str_eq
str_eq_iff [] [] = (λ _. refl, λ _. refl)
str_eq_iff [] (y ∷ ys) = (λ h. cc, λ h. cc)
str_eq_iff (x ∷ xs) [] = (λ h. cc, λ h. cc)
str_eq_iff (x ∷ xs) (y ∷ ys) = ground (arith, str_eq_iff xs ys)

pub str_eq_refl : (s : GoString) → str_eq s s ≡ true
str_eq_refl s = (str_eq_iff s s).1 refl

-- s < t, byte by byte
unfoldable pub str_lt : GoString → GoString → Bool
str_lt s [] = false
str_lt [] (y ∷ ys) = true
str_lt (x ∷ xs) (y ∷ ys) = elim (compare x y) [
  | Ordering.lt ↦ true
  | Ordering.eq ↦ str_lt xs ys
  | Ordering.gt ↦ false
]

pub str_lt-asymm : (s t : GoString) → str_lt s t ≡ true → str_lt t s ≡ false
unfolding str_lt
str_lt-asymm [] [] h = refl
str_lt-asymm [] (y ∷ ys) h = refl
str_lt-asymm (x ∷ xs) [] h = cc
str_lt-asymm (x ∷ xs) (y ∷ ys) h = ground (arith, str_lt-asymm xs ys)

pub str_lt_trans : (s t u : GoString) → str_lt s t ≡ true → str_lt t u ≡ true → str_lt s u ≡ true
unfolding str_lt
str_lt_trans s [] u h k = cc
str_lt_trans s (y ∷ ys) [] h k = cc
str_lt_trans [] (y ∷ ys) (z ∷ zs) h k = refl
str_lt_trans (x ∷ xs) (y ∷ ys) (z ∷ zs) h k = ground (arith, str_lt_trans xs ys zs)

pub str_lt-total : (s t : GoString) → str_lt s t ≡ false → str_lt t s ≡ false → s ≡ t
unfolding str_lt
str_lt-total [] [] h k = refl
str_lt-total [] (y ∷ ys) h k = cc
str_lt-total (x ∷ xs) [] h k = cc
str_lt-total (x ∷ xs) (y ∷ ys) h k = ground (arith, str_lt-total xs ys)

-- strings.HasPrefix
unfoldable pub has_prefix : GoString → GoString → Bool
has_prefix s [] = true
has_prefix [] (y ∷ ys) = false
has_prefix (x ∷ xs) (y ∷ ys) = x == y && has_prefix xs ys

-- strings.Contains
unfoldable pub contains : GoString → GoString → Bool
unfolding has_prefix
contains [] t = has_prefix [] t
contains (x ∷ xs) t = has_prefix (x ∷ xs) t || contains xs t

decimal_digits : ℕ → ℕ → GoString → GoString
decimal_digits zero n ds = ds
decimal_digits (suc fuel) n ds =
    if ltb n 10 then (b'0' + n) ∷ ds else decimal_digits fuel (n / 10) ((b'0' + n % 10) ∷ ds)

-- strconv.Itoa; a number has no more digits than its successor counts.
unfoldable pub itoa : ℕ → GoString
unfolding decimal_digits
itoa n = decimal_digits (suc n) n []
