-- ===== src/Files/Operations/RoundTrip.antt =====
-- Compression and decompression of files, and what they leave behind an error.
use gobol.Base.{
  ◌≡◌, ◌≢◌, ap, ◌∙◌, refl, inl, inr, ℕ, Bool, true, none, some, [], ◌⊎◌, Option, Bool-cases, arith,
  if◌then◌else◌,
}
use gobol.Base.Text.{GoString, Bytes, str_eq, str_eq_iff, str_eq_refl}
use gobol.Base.SyncMap.{load, store, load-store}
use gobol.Base.Outcome.{ok, err, ◌>>=◌}
use gobol.Files.Operations.{
  Error, Disk, Gzip, not_found, zero_length, sized, read_file_bytes, create, written, open_file,
  gzip_file, into, opened, unpacked, source, copied, gzip_decompress_file,
}

-- What the code relies on: a compressed content is read back whole, without an error.
pub record IsGzip (gz : Gzip) : Type 0 where
  pub inverse : (name : GoString) (b : Bytes) → gz.new_reader (gz.compress name b) ≡ some (b, none)

load-same : (d : Disk) (k : GoString) (b : Bytes) → load (store d k b) k ≡ some b
load-same d k b = load-store d k k b ∙ ap (λ x. if x then some b else load d k) (str_eq_refl k)

open_file-ok :
    (disk : Disk) (path : GoString) (b : Bytes)
    → load disk path ≡ some b
    → open_file disk path ≡ ok b
unfolding open_file
open_file-ok disk path b h = rw (h, open_file) refl

-- A file that is missing or empty is read with an error.
Fails : Disk → GoString → Type 0
Fails disk path = (load disk path ≡ none) ⊎ (load disk path ≡ some [])

read_file_bytes-err :
    (read : Bytes → ℕ) (disk : Disk) (path : GoString)
    → Fails disk path
    → (e : Error) × (read_file_bytes read disk path ≡ err e)
unfolding read_file_bytes open_file sized Fails
read_file_bytes-err read disk path (inl h) = (not_found path, rw (h, open_file) refl)
read_file_bytes-err read disk path (inr h) =
    (zero_length path, ap (λ o. o >>= sized read path) (open_file-ok disk path [] h))

store-Fails :
    (disk : Disk) (path output : GoString)
    → (load disk path ≡ none) ⊎ (load disk path ≡ some []) ⊎ (path ≡ output)
    → Fails (store disk output []) path
unfolding Fails
store-Fails disk path output h = elim (Bool-cases (str_eq output path)) [
  | inl e ↦ inr (load-store disk output path [] ∙ ap (λ b. if b then some [] else load disk path) e)
  | inr e ↦
      let same =
        load-store disk output path [] ∙ ap (λ b. if b then some [] else load disk path) e in
      elim h [
        | inl q ↦ inl (same ∙ q)
        | inr (inl q) ↦ inr (same ∙ q)
        | inr (inr q) ↦ ground (arith, str_eq_iff output path)
      ]
]

module _ (read : Bytes → ℕ) (writable : GoString → Bool) (gz : Gzip) where
  create-ok :
      (path : GoString) (disk : Disk)
      → writable path ≡ true
      → create read writable path disk ≡ some (store disk path [])
  unfolding create
  create-ok path disk w = ap (λ b. if b then some (store disk path []) else none) w

  source-other :
      (path output : GoString) (c : Bytes) (r : Bytes × Option GoString)
      → path ≢ output
      → source read writable gz path output c r ≡ r
  unfolding source
  source-other path output c r n = ground (arith, n, str_eq_iff path output)

  -- Where the file is missing or empty, or is the output itself, GzipFile to an output that can be written
  -- returns an error, but it has emptied the output, whatever that held.
  pub gzip_file-empties :
      (path output : GoString) (disk : Disk)
      → writable output ≡ true
      → (load disk path ≡ none) ⊎ (load disk path ≡ some []) ⊎ (path ≡ output)
      → (e : Error) × ((gzip_file read writable gz path output disk).1 ≡ err e)
        × (load (gzip_file read writable gz path output disk).0 output ≡ some [])
  unfolding gzip_file into
  gzip_file-empties path output disk w h =
      let d : Disk = store disk output [] in
      let (e, r) = read_file_bytes-err read d path (store-Fails disk path output h) in
      let same =
        ap (into read writable gz path output disk) (create-ok output disk w)
        ∙ ap (written read writable gz path output d) r in
      (e, ap (λ x. x.1) same, ap (λ x. load x.0 output) same ∙ load-same disk output [])

  -- Where the decompression of a file ends in an error, to another path that can be written, the content up
  -- to the error is written, and no error is returned.
  pub gzip_decompress_file_hides :
      (path output : GoString) (disk : Disk) (c b : Bytes) (problem : GoString)
      → writable output ≡ true
      → path ≢ output
      → load disk path ≡ some c
      → gz.new_reader c ≡ some (b, some problem)
      → ((gzip_decompress_file read writable gz path output disk).1 ≡ ok tt)
        × (load (gzip_decompress_file read writable gz path output disk).0 output ≡ some b)
  unfolding gzip_decompress_file opened unpacked copied
  gzip_decompress_file_hides path output disk c b problem w n h r =
      let d : Disk = store disk output [] in
      let same =
        ap (opened read writable gz path output disk) (open_file-ok disk path c h)
        ∙ ap (unpacked read writable gz path output disk c) r
        ∙ ap (λ s. copied read writable gz output disk (create read writable output disk) s)
            (source-other path output c (b, some problem) n)
        ∙ ap (λ o. copied read writable gz output disk o (b, some problem))
            (create-ok output disk w) in
      (ap (λ x. x.1) same, ap (λ x. load x.0 output) same ∙ load-same d output b)
