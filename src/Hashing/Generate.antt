-- ===== src/Hashing/Generate.antt =====
-- hashing/hashing.go: the hash of a list of parameters by a named algorithm.
use gobol.Base.{ℕ, List, [], ◌∷◌, ◌++◌, if◌then◌else◌}
use gobol.Base.Text.{GoString, Bytes, codes, str_eq}
use gobol.Base.Int.{ℤ, pos, negsuc}
use gobol.Hashing.Value.{Value, no_algorithm, Outcome, ok, err, panicked, ◌>>=◌}
use gobol.Hashing.Convert.{get_byte_array}

abbrev pub Algorithm : Type 0
Algorithm = GoString

-- The digests of the packages crypto/*, hash/crc32 and x/crypto/sha3: what `Sum` and `Read` give
-- after one `Write`, whose error is always nil.
pub record Digests : Type 0 where
  pub sha256 : Bytes → Bytes
  pub sha1 : Bytes → Bytes
  pub md5 : Bytes → Bytes
  pub crc32 : Bytes → Bytes
  pub shake128 : ℕ → Bytes → Bytes
  pub shake256 : ℕ → Bytes → Bytes

-- The loop of GenerateByteArray.
unfoldable pub append_parameters : List Value → Bytes → Outcome Bytes
append_parameters [] result = ok result
append_parameters (p ∷ ps) result = do
  bytes ← get_byte_array p
  append_parameters ps (result ++ bytes)

unfoldable pub generate_byte_array : List Value → Outcome Bytes
unfolding append_parameters
generate_byte_array [] = ok []
generate_byte_array (p ∷ ps) = append_parameters (p ∷ ps) []

unfoldable pub generate_hash : (Bytes → Bytes) → List Value → Outcome Bytes
generate_hash h parameters = do byte_array ← generate_byte_array parameters; ok (h byte_array)

-- make([]byte, n), which panics for a negative length; the length is the result.
make_bytes : ℤ → Outcome ℕ
make_bytes (pos n) = ok n
make_bytes (negsuc n) = panicked

unfoldable pub generate_shake_hash : (ℕ → Bytes → Bytes) → ℤ → List Value → Outcome Bytes
unfolding make_bytes
generate_shake_hash h output_size parameters = do
  byte_array ← generate_byte_array parameters
  n ← make_bytes output_size
  ok (h n byte_array)

module _ (d : Digests) where
  unfoldable pub generate_sha256 : List Value → Outcome Bytes
  unfolding generate_hash
  generate_sha256 = generate_hash d.sha256

  unfoldable pub generate_crc32 : List Value → Outcome Bytes
  unfolding generate_hash
  generate_crc32 = generate_hash d.crc32

  unfoldable pub generate_md5 : List Value → Outcome Bytes
  unfolding generate_hash
  generate_md5 = generate_hash d.md5

  unfoldable pub generate_sha1 : List Value → Outcome Bytes
  unfolding generate_hash
  generate_sha1 = generate_hash d.sha1

  unfoldable pub generate_shake128 : ℤ → List Value → Outcome Bytes
  unfolding generate_shake_hash
  generate_shake128 = generate_shake_hash d.shake128

  unfoldable pub generate_shake256 : ℤ → List Value → Outcome Bytes
  unfolding generate_shake_hash
  generate_shake256 = generate_shake_hash d.shake256

  -- Generate
  unfoldable pub generate : Algorithm → List Value → Outcome Bytes
  unfolding generate_sha256 generate_sha1 generate_md5 generate_crc32
  generate algorithm parameters =
      if str_eq algorithm (codes "sha256")
      then generate_sha256 parameters
      else if str_eq algorithm (codes "sha1")
      then generate_sha1 parameters
      else if str_eq algorithm (codes "md5")
      then generate_md5 parameters
      else if str_eq algorithm (codes "crc32")
      then generate_crc32 parameters
      else err (no_algorithm algorithm)

  -- GenerateSHAKE
  unfoldable pub generate_shake : Algorithm → ℤ → List Value → Outcome Bytes
  unfolding generate_shake128 generate_shake256
  generate_shake algorithm output_size parameters =
      if str_eq algorithm (codes "shake128")
      then generate_shake128 output_size parameters
      else if str_eq algorithm (codes "shake256")
      then generate_shake256 output_size parameters
      else err (no_algorithm algorithm)
