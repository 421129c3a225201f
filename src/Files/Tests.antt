-- ===== src/Files/Tests.antt =====
-- The theorems on the package files at concrete trees and disks.
use gobol.Base.{
  inl, ◌≡◌, ◌≢◌, inr, refl, ℕ, ◌+◌, Bool, true, false, Option, none, some, List, [], ◌∷◌, ◌++◌,
  length, inl,
}
use gobol.Base.Text.{GoString, Bytes, codes}
use gobol.Base.Int.{pos}
use gobol.Base.SyncMap.{load}
use gobol.Base.Outcome.{ok, err}
use gobol.Files.Walk.{Node, FileInfo, refused, file, folder, end, entry}
use gobol.Files.Scanner.{Scanner, new_scanner, scan, file_of}
use gobol.Files.Scanner.Listed.{listed, found, passed_over, list_of, scan-listed}
use gobol.Files.Operations.{Disk, Error, Gzip, gzip_file, gzip_decompress_file}
use gobol.Files.Operations.RoundTrip.{gzip_file-empties, gzip_decompress_file_hides}

abbrev info : GoString → ℕ → Bool → FileInfo
info name n d = record { name = name; size = pos n; mod_time = pos 0; is_dir = d }

-- A folder with two files and one that Lstat refuses.
abbrev tree : Node
tree = folder (info (codes "d") 0 true) none (
    entry (codes "a") (file (info (codes "a") 9 false)) (
      entry (codes "b") (file (info (codes "b") 1 false))
        (entry (codes "c") (refused (codes "denied")) end)))

abbrev scanner : Scanner
scanner = new_scanner (λ path. true) (pos 3)

abbrev join : GoString → GoString → GoString
join path name = path ++ b'/' ∷ name

scan-listed_example :
    ((scan join (codes "d") tree scanner).1 ≡ record {
      files = found (λ path. true) (pos 3) (listed join (codes "d") tree).0;
      ignored = passed_over (λ path. true) (pos 3) (listed join (codes "d") tree).0;
      errors = list_of (listed join (codes "d") tree).1;
    })
    × ((scan join (codes "d") tree scanner).2 ≡ (listed join (codes "d") tree).1)
    × (length (scan join (codes "d") tree scanner).1.files
          + length (scan join (codes "d") tree scanner).1.ignored
        ≡ length (listed join (codes "d") tree).0)
scan-listed_example = scan-listed join (codes "d") tree scanner (refl, (refl, (refl, (tt, tt))))

scanned : (scan join (codes "d") tree scanner).1 ≡ record {
  files = file_of (codes "d/a") (info (codes "a") 9 false) false ∷ [];
  ignored = file_of (codes "d/b") (info (codes "b") 1 false) true ∷ [];
  errors = codes "denied" ∷ [];
}
unfolding scan gobol.Files.Walk.walk gobol.Files.Walk.enter gobol.Files.Walk.unless_failed
    gobol.Files.Scanner.visit gobol.Base.Int.int_lt file_of
scanned = refl

-- A format that puts one byte in front of the content.
read_stored : Bytes → Option (Bytes × Option GoString)
read_stored [] = none
read_stored (x ∷ b) = some (b, none)

abbrev stored : Gzip
stored = record {
  compress = λ name b. 31 ∷ b;
  new_reader = read_stored;
  read_in_place = λ b. ([], none);
}

abbrev disk : Disk
disk = (codes "a", codes "text") ∷ []

in_disk : load disk (codes "a") ≡ some (codes "text")
unfolding load gobol.Base.Text.str_eq
in_disk = refl

missing : load disk (codes "none") ≡ none
unfolding load gobol.Base.Text.str_eq
missing = refl

a-ne-ab : codes "a" ≢ codes "ab"
a-ne-ab h = cc

abbrev compressed : Disk
compressed = (gzip_file length (λ p. true) stored (codes "a") (codes "a.gz") disk).0

gzip_file-empties_example :
    (e : Error) × ((gzip_file length (λ p. true) stored (codes "none") (codes "a") disk).1 ≡ err e)
    × (load (gzip_file length (λ p. true) stored (codes "none") (codes "a") disk).0 (codes "a")
        ≡ some [])
gzip_file-empties_example =
    gzip_file-empties length (λ p. true) stored (codes "none") (codes "a") disk refl (inl missing)

-- A reader that finds a wrong checksum.
abbrev damaged : Gzip
damaged = record {
  compress = λ name b. b;
  new_reader = λ b. some (codes "te", some (codes "checksum"));
  read_in_place = λ b. ([], none);
}

in_part :
    ((gzip_decompress_file length (λ p. true) damaged (codes "a") (codes "ab") disk).1 ≡ ok tt)
    × (load
          (gzip_decompress_file length (λ p. true) damaged (codes "a") (codes "ab") disk).0
          (codes "ab")
        ≡ some (codes "te"))
in_part =
    gzip_decompress_file_hides length (λ p. true) damaged (codes "a") (codes "ab") disk
      (codes "text") (codes "te") (codes "checksum") refl a-ne-ab in_disk refl
