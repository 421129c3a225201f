-- ===== src/Hashing/Maps.antt =====
-- The bytes of a map: independent of the order of iteration where sortKeys sorts the keys.
use mathlib.Core.Path.{subst}
use mathlib.Core.List.{Permᴰ}
use gobol.Base.{ap, sym, ◌∙◌, ℕ, ◌≡◌, ◌≢◌, refl, Bool, List, [], ◌∷◌, ◌++◌, map, Distinct}
use gobol.Base.Text.{GoString, Bytes, str_lt}
use gobol.Base.Order.{IsStrictOrder, str_lt-IsStrictOrder}
use gobol.Base.Sort.{sort, sort-perm, map-perm}
use gobol.Base.Int.{ℤ, IsInt64, int_lt, int_lt-IsStrictOrder}
use gobol.Hashing.Value.{
  Size, bits64, Value, str, int, uint, dict, array, nil, cons, Entries, end, entry, Outcome, ok,
  panicked, ◌>>=◌,
}
use gobol.Hashing.Integers.{big_endian, big_endian-int64, to_uint64-injective}
use gobol.Hashing.Convert.{
  Row, get_byte_array, rows_of, map_to_byte_array, join_rows, int64_to_byte_array, string_of,
  int_of,
}

-- A map with keys of one type, given with an order of its entries.
module _ {K : Type 0} (key : K → Value) where
  abbrev pub entries_of : List (K × Value) → Entries
  entries_of [] = end
  entries_of ((k, v) ∷ es) = entry (key k) v (entries_of es)

  row_of : K × Value → Row
  unfolding rows_of
  row_of (k, v) = (
    key k,
    do
      key_bytes ← get_byte_array (key k)
      val_bytes ← get_byte_array v
      ok (key_bytes ++ val_bytes),
  )

  rows_of-map : (es : List (K × Value)) → rows_of (entries_of es) ≡ map row_of es
  unfolding row_of
  rows_of-map [] = refl
  rows_of-map ((k, v) ∷ es) = rw (rows_of-map es)

-- A map whose keys sortKeys sorts by `less`.
module _ {K : Type 0} (key : K → Value) (unkey : Value → K) (back : (k : K) → unkey (key k) ≡ k)
    (less : K → K → Bool) (order : IsStrictOrder less)
    (sorts : (es : List (K × Value))
      → map_to_byte_array (map (row_of key) es)
        ≡ join_rows (sort less (λ r. unkey r.0) (map (row_of key) es))) where
  keys-rows :
      (es : List (K × Value))
      → map (λ (r : Row). unkey r.0) (map (row_of key) es) ≡ map (λ e. e.0) es
  unfolding row_of
  keys-rows [] = refl
  keys-rows ((k, v) ∷ es) = cc (back k, keys-rows es)

  dict-perm :
      {xs ys : List (K × Value)}
      → Permᴰ xs ys
      → Distinct (map (λ e. e.0) xs)
      → get_byte_array (dict (entries_of key xs)) ≡ get_byte_array (dict (entries_of key ys))
  unfolding get_byte_array
  dict-perm {xs} {ys} p d =
      rw (rows_of-map key xs, rows_of-map key ys, sorts xs, sorts ys)
        (ap join_rows (
          sort-perm less (λ r. unkey r.0) order (map-perm (row_of key) p)
            (subst Distinct (sym (keys-rows xs)) d)))

sorts_str :
    (es : List (GoString × Value))
    → map_to_byte_array (map (row_of str) es)
      ≡ join_rows (sort str_lt (λ r. string_of r.0) (map (row_of str) es))
unfolding map_to_byte_array row_of sort
sorts_str [] = refl
sorts_str (e ∷ es) = refl

sorts_int :
    (z : Size) (es : List (ℤ × Value))
    → map_to_byte_array (map (row_of (int z)) es)
      ≡ join_rows (sort int_lt (λ r. int_of r.0) (map (row_of (int z)) es))
unfolding map_to_byte_array row_of sort
sorts_int z [] = refl
sorts_int z (e ∷ es) = refl

-- A map with text keys, each of which it holds once, has the same bytes in whatever order its
-- entries are visited.
pub string_map-perm :
    {xs ys : List (GoString × Value)}
    → Permᴰ xs ys
    → Distinct (map (λ e. e.0) xs)
    → get_byte_array (dict (entries_of str xs)) ≡ get_byte_array (dict (entries_of str ys))
string_map-perm = dict-perm str string_of (λ k. refl) str_lt str_lt-IsStrictOrder sorts_str

-- A map with keys of a signed integer type, each of which it holds once, has the same bytes in
-- whatever order its entries are visited.
pub int_map-perm :
    (z : Size) {xs ys : List (ℤ × Value)}
    → Permᴰ xs ys
    → Distinct (map (λ e. e.0) xs)
    → get_byte_array (dict (entries_of (int z) xs)) ≡ get_byte_array (dict (entries_of (int z) ys))
int_map-perm z = dict-perm (int z) int_of (λ k. refl) int_lt int_lt-IsStrictOrder (sorts_int z)

-- A map with two or more keys of an unsigned integer type panics, whatever it holds.
pub uint_map_panics :
    (z : Size) (m n : ℕ) (v w : Value) (es : Entries)
    → get_byte_array (dict (entry (uint z m) v (entry (uint z n) w es))) ≡ panicked
unfolding get_byte_array map_to_byte_array
uint_map_panics z m n v w es = refl

-- The number that the first eight bytes of an outcome spell.
abbrev first_number : Outcome Bytes → ℕ
first_number (ok (a ∷ b ∷ c ∷ d ∷ e ∷ f ∷ g ∷ h ∷ _)) =
    big_endian (a ∷ b ∷ c ∷ d ∷ e ∷ f ∷ g ∷ h ∷ [])
first_number _ = 0

-- A map whose keys are arrays is not sorted: with two different int64 keys (in one-element arrays)
-- and a value `v` that has bytes at both, the two orders of iteration give different bytes.
pub array_map_order :
    (i j : ℤ) (v : Value) {b : Bytes}
    → IsInt64 i
    → IsInt64 j
    → i ≢ j
    → get_byte_array v ≡ ok b
    → let k = λ (n : ℤ). array (cons (int bits64 n) nil) in
      get_byte_array (dict (entry (k i) v (entry (k j) v end)))
      ≢ get_byte_array (dict (entry (k j) v (entry (k i) v end)))
unfolding get_byte_array map_to_byte_array int64_to_byte_array
array_map_order i j v {b} hi hj ne e eq = ne (
    to_uint64-injective i j hi hj
      (sym (big_endian-int64 i hi) ∙ ap first_number (rw e at eq) ∙ big_endian-int64 j hj))
