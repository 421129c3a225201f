-- ===== src/Hashing/Tests.antt =====
-- The theorems on hashing at concrete values, and runs of the conversions.
use mathlib.Core.List.{Permᴰ}
use gobol.Base.{◌≡◌, refl, true, false, [], ◌∷◌, ◌++◌, arith, length, All, inl, inr}
use gobol.Base.Text.{codes, str_lt}
use gobol.Base.Int.{pos, negsuc}
use gobol.Base.Sort.{sort}
use gobol.Hashing.Value.{
  word, str, int, uint, bool, dict, other, end, entry, chan, other_kind, not_mapped, ok, err,
  panicked, ◌>>=◌,
}
use gobol.Hashing.Convert.{
  get_byte_array, map_to_byte_array, int64_to_byte_array, uint64_to_byte_array, bool_to_byte_array,
  string_to_byte_array,
}
use gobol.Hashing.Generate.{Digests, generate_byte_array}
use gobol.Hashing.Integers.{big_endian, IsByte, uint64_to_byte_array_lem}
use gobol.Hashing.Maps.{entries_of, string_map-perm, uint_map_panics}
use gobol.Hashing.Collisions.{generate_byte_array-append}

-- Digests that hand their input on.
abbrev plain : Digests
plain = record {
  sha256 = λ b. b;
  sha1 = λ b. b;
  md5 = λ b. b;
  crc32 = λ b. b;
  shake128 = λ n b. b;
  shake256 = λ n b. b;
}

uint64_to_byte_array_lem_example :
    (big_endian (uint64_to_byte_array 258) ≡ 258)
    × (length (uint64_to_byte_array 258) ≡ 8)
    × All IsByte (uint64_to_byte_array 258)
uint64_to_byte_array_lem_example = uint64_to_byte_array_lem 258 (omega arith)

string_map-perm_example :
    get_byte_array (dict (entries_of str ((codes "b", int word (pos 1)) ∷ ([], bool true) ∷ [])))
    ≡ get_byte_array (dict (entries_of str (([], bool true) ∷ (codes "b", int word (pos 1)) ∷ [])))
string_map-perm_example =
    string_map-perm {xs = (codes "b", int word (pos 1)) ∷ ([], bool true) ∷ []}
      (Permᴰ.swap refl refl) (λ h. elim h [ inl p ↦ cc | inr q ↦ q ], (λ h. h, tt))

unsigned_keys :
    get_byte_array (dict (entry (uint word 1) (bool true) (entry (uint word 2) (bool true) end)))
    ≡ panicked
unsigned_keys = uint_map_panics word 1 2 (bool true) (bool true) end

generate_byte_array-append_example :
    generate_byte_array ((bool true ∷ []) ++ (str (codes "x") ∷ [])) ≡ (
      generate_byte_array (bool true ∷ []) >>= λ a.
      generate_byte_array (str (codes "x") ∷ []) >>= λ b. ok (a ++ b))
generate_byte_array-append_example =
    generate_byte_array-append (bool true ∷ []) (str (codes "x") ∷ [])

sorted_map :
    get_byte_array (dict (entries_of str ((codes "b", bool true) ∷ (codes "a", bool false) ∷ [])))
    ≡ ok (b'a' ∷ 0 ∷ b'b' ∷ 1 ∷ [])
unfolding get_byte_array map_to_byte_array sort str_lt string_to_byte_array bool_to_byte_array
sorted_map = refl

no_bytes : get_byte_array (other chan) ≡ err (not_mapped (other_kind chan))
unfolding get_byte_array
no_bytes = refl

minus_one : int64_to_byte_array (negsuc 0) ≡ 255 ∷ 255 ∷ 255 ∷ 255 ∷ 255 ∷ 255 ∷ 255 ∷ 255 ∷ []
unfolding int64_to_byte_array
minus_one = refl
