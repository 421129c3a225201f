-- ===== src/Hashing/Convert.antt =====
-- hashing/byteconv.go and hashing/sortconv.go.
use gobol.Base.{ℕ, ◌/◌, ◌%◌, ◌^◌, Bool, true, false, List, [], ◌∷◌, ◌++◌}
use gobol.Base.Text.{GoString, Bytes, str_lt}
use gobol.Base.Int.{ℤ, pos, int_lt, to_uint64}
use gobol.Base.Float.{Float64, float_lt}
use gobol.Base.Sort.{sort}
use gobol.Hashing.Value.{
  Kind, string_kind, int_kind, uint_kind, float_kind, bool_kind, Value, str, int, uint, float, bool,
  dict, array, other, Values, nil, cons, Entries, end, entry, kind_of, not_mapped, Outcome, ok, err,
  panicked, ◌>>=◌,
}

-- binary.BigEndian.PutUint64
abbrev put_uint64 : ℕ → Bytes
put_uint64 x =
    x / 2 ^ 56 % 256
    ∷ x / 2 ^ 48 % 256
    ∷ x / 2 ^ 40 % 256
    ∷ x / 2 ^ 32 % 256
    ∷ x / 2 ^ 24 % 256
    ∷ x / 2 ^ 16 % 256
    ∷ x / 2 ^ 8 % 256
    ∷ x % 256
    ∷ []

unfoldable pub float64_to_byte_array : Float64 → Bytes
float64_to_byte_array f = put_uint64 f

unfoldable pub int64_to_byte_array : ℤ → Bytes
int64_to_byte_array i = put_uint64 (to_uint64 i)

unfoldable pub uint64_to_byte_array : ℕ → Bytes
uint64_to_byte_array i = put_uint64 i

unfoldable pub bool_to_byte_array : Bool → Bytes
bool_to_byte_array true = 1 ∷ []
bool_to_byte_array false = 0 ∷ []

unfoldable pub string_to_byte_array : GoString → Bytes
string_to_byte_array [] = []
string_to_byte_array (c ∷ s) = c ∷ s

-- byBool's Less
unfoldable pub bool_lt : Bool → Bool → Bool
bool_lt false true = true
bool_lt _ _ = false

-- (v reflect.Value) String, Int, Float and Bool, on values of those kinds.
abbrev pub string_of : Value → GoString
string_of (str s) = s
string_of _ = []

abbrev pub int_of : Value → ℤ
int_of (int _ i) = i
int_of _ = pos 0

abbrev pub float_of : Value → Float64
float_of (float _ f) = f
float_of _ = 0

abbrev pub bool_of : Value → Bool
bool_of (bool b) = b
bool_of _ = false

-- A key of a map, with the bytes of the key and of its value.
abbrev pub Row : Type 0
Row = Value × Outcome Bytes

-- byInt's Less calls Int, which panics at an unsigned integer; Less is called if there are two keys.
by_int_unsigned : List Row → Outcome (List Row)
by_int_unsigned (r ∷ s ∷ rows) = panicked
by_int_unsigned rows = ok rows

-- sortKeys; its error is dropped by the caller, and then the keys stay as they are.
unfoldable pub sort_keys : Kind → List Row → Outcome (List Row)
unfolding by_int_unsigned
sort_keys string_kind rows = ok (sort str_lt (λ r. string_of r.0) rows)
sort_keys uint_kind rows = by_int_unsigned rows
sort_keys int_kind rows = ok (sort int_lt (λ r. int_of r.0) rows)
sort_keys float_kind rows = ok (sort float_lt (λ r. float_of r.0) rows)
sort_keys bool_kind rows = ok (sort bool_lt (λ r. bool_of r.0) rows)
sort_keys _ rows = ok rows

-- The loop of mapToByteArray over the sorted keys.
unfoldable pub join_rows : List Row → Outcome Bytes
join_rows [] = ok []
join_rows ((_, b) ∷ rows) = do bytes ← b; rest ← join_rows rows; ok (bytes ++ rest)

unfoldable pub map_to_byte_array : List Row → Outcome Bytes
unfolding sort_keys join_rows
map_to_byte_array [] = ok []
map_to_byte_array ((k, b) ∷ rows) = do
  sorted ← sort_keys (kind_of k) ((k, b) ∷ rows)
  join_rows sorted

unfoldable mutual
  pub get_byte_array : Value → Outcome Bytes
  get_byte_array (str s) = ok (string_to_byte_array s)
  get_byte_array (int _ i) = ok (int64_to_byte_array i)
  get_byte_array (uint _ n) = ok (uint64_to_byte_array n)
  get_byte_array (float _ f) = ok (float64_to_byte_array f)
  get_byte_array (bool b) = ok (bool_to_byte_array b)
  get_byte_array (dict es) = map_to_byte_array (rows_of es)
  get_byte_array (array vs) = array_to_byte_array vs
  get_byte_array (other k) = err (not_mapped (kind_of (other k)))

  pub array_to_byte_array : Values → Outcome Bytes
  array_to_byte_array nil = ok []
  array_to_byte_array (cons v vs) = do
    bytes ← get_byte_array v
    rest ← array_to_byte_array vs
    ok (bytes ++ rest)

  pub rows_of : Entries → List Row
  rows_of end = []
  rows_of (entry k v es) =
      (
        k,
        do key_bytes ← get_byte_array k; val_bytes ← get_byte_array v; ok (key_bytes ++ val_bytes),
      )
      ∷ rows_of es
