-- ===== src/Hashing/Value.antt =====
-- The values that `interface{}` parameters hold, as package `reflect` shows them, and the outcome of
-- a conversion.
use gobol.Base.{ℕ, Bool}
use gobol.Base.Text.{GoString}
use gobol.Base.Int.{ℤ}
use gobol.Base.Float.{Float64}
use gobol.Base.Outcome.{Outcome as GoOutcome}
pub use gobol.Base.Outcome.{ok, err, panicked, ◌>>=◌}

-- The kinds of `reflect` that have no conversion.
pub data OtherKind : Type 0 where
  invalid uintptr complex64 complex128 chan func interface ptr struct unsafe_pointer : OtherKind

-- The width of a number's type; `word` is that of int and uint.
pub data Size : Type 0 where
  bits8 bits16 bits32 bits64 word : Size

-- The kinds, with the widths of the numbers put together: their conversions are the same.
pub data Kind : Type 0 where
  string_kind int_kind uint_kind float_kind bool_kind map_kind array_kind : Kind
  other_kind : OtherKind → Kind

-- `array` is an array or a slice.
mutual
  pub data Value : Type 0 where
    str : GoString → Value
    int : Size → ℤ → Value
    uint : Size → ℕ → Value
    float : Size → Float64 → Value
    bool : Bool → Value
    dict : Entries → Value
    array : Values → Value
    other : OtherKind → Value

  pub data Values : Type 0 where
    nil : Values
    cons : Value → Values → Values

  -- The entries of a map, in the order in which `MapKeys` gives the keys.
  pub data Entries : Type 0 where
    end : Entries
    entry : Value → Value → Entries → Entries

-- (v reflect.Value) Kind
abbrev pub kind_of : Value → Kind
kind_of (str _) = string_kind
kind_of (int _ _) = int_kind
kind_of (uint _ _) = uint_kind
kind_of (float _ _) = float_kind
kind_of (bool _) = bool_kind
kind_of (dict _) = map_kind
kind_of (array _) = array_kind
kind_of (other k) = other_kind k

pub data HashError : Type 0 where
  not_mapped : Kind → HashError
  no_algorithm : GoString → HashError

-- The outcome of a conversion or of a hash.
abbrev pub Outcome : Type 0 → Type 0
Outcome = GoOutcome HashError
