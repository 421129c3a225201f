-- ===== src/Services/Tests.antt =====
-- The theorems on the small packages at concrete values, and runs of their functions.
use gobol.Base.{◌≡◌, refl, true, false, Option, none, some, [], ◌∷◌, ◌++◌, append-nil}
use gobol.Base.Text.{GoString, Bytes, codes, str_eq, itoa}
use gobol.Base.Outcome.{Outcome, ok, err, ◌>>=◌}
use gobol.Services.Cassandra.{all, consistency_of}
use gobol.Services.Cockroach.{
  first_line, has_ip, password_url, new_conn_using_docker, new_conn_using_password,
}
use gobol.Services.Compress.{Gzip, IsGzip, zip_bytes, unzip_bytes, unzip_bytes-zip_bytes}

-- The line that docker inspect prints.
abbrev line : GoString
line = codes "'10.0.0.7'" ++ 10 ∷ []

host : first_line line ≡ codes "10.0.0.7"
unfolding first_line
host = refl

valid : has_ip (codes "10.0.0.7") ≡ true
unfolding has_ip
valid = refl

invalid : has_ip (codes "10.0..7") ≡ false
unfolding has_ip
invalid = refl

connected :
    new_conn_using_docker {Db = GoString}
      (λ url. ok url)
      (some line)
      (codes "d")
      (codes "u")
      (codes "p")
      26257
    ≡ ok (codes "postgresql://u:p@10.0.0.7:26257/d?ssl=true&sslmode=require")
unfolding new_conn_using_docker new_conn_using_password password_url first_line has_ip itoa
connected = refl

-- An unknown consistency keeps that of the driver.
unknown : consistency_of (codes "QUORUM") all ≡ all
unfolding consistency_of str_eq
unknown = refl

-- A format that puts one byte in front of the content.
read_stored : Bytes → Outcome GoString (Bytes × Option GoString)
read_stored [] = err (codes "EOF")
read_stored (x ∷ b) = ok (b, none)

abbrev stored : Gzip
stored = record { write = λ b. 31 ∷ b; flush = λ b. []; close = λ b. []; new_reader = read_stored }

stored-IsGzip : IsGzip stored
unfolding read_stored
stored-IsGzip b = simp append-nil

round_trip : (zip_bytes stored (codes "text") >>= unzip_bytes stored) ≡ ok (codes "text")
round_trip = unzip_bytes-zip_bytes stored stored-IsGzip (codes "text")
