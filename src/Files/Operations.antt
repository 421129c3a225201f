-- ===== src/Files/Operations.antt =====
-- files/file_ops.go, on the contents of the files by path, where two paths are two files. Reading, writing
-- and closing an open file do not fail, and compress/gzip is a parameter, as is how much a call of Read
-- gives.
pub mod RoundTrip
use gobol.Base.{
  Option, none, some, List, [], ◌∷◌, ◌++◌, length, ℕ, zero, suc, ◌≡◌, Bool, true, false,
  if◌then◌else◌, ◌==◌,
}
use gobol.Base.Text.{GoString, Bytes, codes, str_eq}
use gobol.Base.SyncMap.{SyncMap, load, store, delete}
use gobol.Base.Outcome.{Outcome as GoOutcome, ok, err, panicked, ◌>>=◌}

pub data Error : Type 0 where
  -- of os.Open and os.Remove
  not_found : GoString → Error
  -- of os.Create
  not_created : GoString → Error
  zero_length : GoString → Error
  not_gzip : Error

abbrev pub Outcome : Type 0 → Type 0
Outcome = GoOutcome Error

-- The contents of the files.
abbrev pub Disk : Type 0
Disk = SyncMap Bytes

-- What compress/gzip makes of a content under a name, and how it reads one: an error at the header, or the
-- content up to the end or up to an error. `read_in_place` is what is read where the file is truncated and
-- then overwritten with what has been read: the reader keeps only a buffer of it.
pub record Gzip : Type 0 where
  pub compress : GoString → Bytes → Bytes
  pub new_reader : Bytes → Option (Bytes × Option GoString)
  pub read_in_place : Bytes → Bytes × Option GoString

-- os.Open with Stat, and the content behind it
unfoldable pub open_file : Disk → GoString → Outcome Bytes
open_file disk path = elim (load disk path) [ some b ↦ ok b | none ↦ err (not_found path) ]

-- GetFileInfo, of which the size is kept
unfoldable pub get_file_info : Disk → GoString → Outcome ℕ
unfolding open_file
get_file_info disk path = open_file disk path >>= λ b. ok (length b)

-- A buffer of the size of a content, of which `n` bytes have been read; the others are zero.
unfoldable pub buffer_of : ℕ → Bytes → Bytes
buffer_of n [] = []
buffer_of zero (x ∷ b) = 0 ∷ buffer_of zero b
buffer_of (suc n) (x ∷ b) = x ∷ buffer_of n b

sized : (Bytes → ℕ) → GoString → Bytes → Outcome Bytes
unfolding buffer_of
sized read path [] = err (zero_length path)
sized read path (x ∷ b) = ok (buffer_of (read (x ∷ b)) (x ∷ b))

-- ReadFileBytes; `read` is the number of bytes that the one call of Read gives, which the code drops.
unfoldable pub read_file_bytes : (Bytes → ℕ) → Disk → GoString → Outcome Bytes
unfolding open_file sized
read_file_bytes read disk path = open_file disk path >>= sized read path

-- The last part of strings.Split by "/"
last_part : GoString → GoString → GoString
last_part part [] = part
last_part part (c ∷ path) = if c == b'/' then last_part [] path else last_part (part ++ c ∷ []) path

module _ (read : Bytes → ℕ) (writable : GoString → Bool) where
  -- os.Create, on the paths that can be written
  unfoldable pub create : GoString → Disk → Option Disk
  create path disk = if writable path then some (store disk path []) else none

  module _ (gz : Gzip) where
    written : GoString → GoString → Disk → Outcome Bytes → Disk × Outcome (Unit {0})
    unfolding last_part
    written path output disk (ok b) = (store disk output (gz.compress (last_part [] path) b), ok tt)
    written path output disk (err e) = (disk, err e)
    written path output disk panicked = (disk, panicked)

    into : GoString → GoString → Disk → Option Disk → Disk × Outcome (Unit {0})
    unfolding written
    into path output disk none = (disk, err (not_created output))
    into path output disk (some d) = written path output d (read_file_bytes read d path)

    -- GzipFile: the output is created before the input is read.
    unfoldable pub gzip_file : GoString → GoString → Disk → Disk × Outcome (Unit {0})
    unfolding into
    gzip_file path output disk = into path output disk (create output disk)

    -- io.Copy into a new file; its error is dropped.
    copied : GoString → Disk → Option Disk → Bytes × Option GoString → Disk × Outcome (Unit {0})
    copied output disk none r = (disk, err (not_created output))
    copied output disk (some d) (b, e) = (store d output b, ok tt)

    -- The output is created before the input is read behind its header.
    source : GoString → GoString → Bytes → Bytes × Option GoString → Bytes × Option GoString
    source path output b r = if str_eq path output then gz.read_in_place b else r

    unpacked :
        GoString
        → GoString
        → Disk
        → Bytes
        → Option (Bytes × Option GoString)
        → Disk × Outcome (Unit {0})
    unfolding copied source
    unpacked path output disk b none = (disk, err not_gzip)
    unpacked path output disk b (some r) =
        copied output disk (create output disk) (source path output b r)

    opened : GoString → GoString → Disk → Outcome Bytes → Disk × Outcome (Unit {0})
    unfolding unpacked
    opened path output disk (ok b) = unpacked path output disk b (gz.new_reader b)
    opened path output disk (err e) = (disk, err e)
    opened path output disk panicked = (disk, panicked)

    -- GzipDecompressFile
    unfoldable pub gzip_decompress_file : GoString → GoString → Disk → Disk × Outcome (Unit {0})
    unfolding opened
    gzip_decompress_file path output disk = opened path output disk (open_file disk path)

-- DeleteFile
unfoldable pub delete_file : GoString → Disk → Disk × Outcome (Unit {0})
delete_file path disk = elim (load disk path) [
  | some b ↦ (delete disk path, ok tt)
  | none ↦ (disk, err (not_found path))
]
