-- ===== src/Services/Compress.antt =====
-- compress/gzip.go, over the reader and the writer of compress/gzip.
use gobol.Base.{◌≡◌, ap, Option, none, some, ◌++◌}
use gobol.Base.Text.{GoString, Bytes}
use gobol.Base.Outcome.{Outcome, ok, err, ◌>>=◌}

-- What Write, Flush and Close put out, which do not fail on a bytes.Buffer, and how a content is read: an
-- error of NewReader, or the content with an error at its end.
pub record Gzip : Type 0 where
  pub write : Bytes → Bytes
  pub flush : Bytes → Bytes
  pub close : Bytes → Bytes
  pub new_reader : Bytes → Outcome GoString (Bytes × Option GoString)

module _ (gz : Gzip) where
  read_from : Bytes × Option GoString → Outcome GoString Bytes
  read_from (b, none) = ok b
  read_from (b, some e) = err e

  -- UnzipBytes
  unfoldable pub unzip_bytes : Bytes → Outcome GoString Bytes
  unfolding read_from
  unzip_bytes bytes = gz.new_reader bytes >>= read_from

  -- ZipBytes
  unfoldable pub zip_bytes : Bytes → Outcome GoString Bytes
  zip_bytes bytes = ok (gz.write bytes ++ gz.flush bytes ++ gz.close bytes)

  -- What the code relies on: the output of a writer is read back whole.
  abbrev pub IsGzip : Type 0
  IsGzip = (b : Bytes) → gz.new_reader (gz.write b ++ gz.flush b ++ gz.close b) ≡ ok (b, none)

  -- UnzipBytes gives back the bytes that ZipBytes got.
  pub unzip_bytes-zip_bytes : (law : IsGzip) (b : Bytes) → (zip_bytes b >>= unzip_bytes) ≡ ok b
  unfolding unzip_bytes zip_bytes read_from
  unzip_bytes-zip_bytes law b = ap (λ r. r >>= read_from) (law b)
