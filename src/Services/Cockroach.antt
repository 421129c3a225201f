-- ===== src/Services/Cockroach.antt =====
-- cockroach/connection.go. gorm and the call of docker are parameters.
use gobol.Base.{
  ◌≡◌, inl, inr, ℕ, zero, suc, Bool, true, false, not, ◌&&◌, ◌||◌, leb, ◌==◌, Option, none, some,
  [], ◌∷◌, ◌++◌, All, if◌then◌else◌, Bool-cases,
}
use gobol.Base.Text.{GoString, codes, itoa}
use gobol.Base.Outcome.{Outcome, err, panicked}

-- The URL of NewConnUsingCerts
unfoldable pub certs_url : GoString → GoString → GoString → GoString → GoString
certs_url host database user certs =
    codes "postgresql://"
    ++ user
    ++ codes "@"
    ++ host
    ++ codes "/"
    ++ database
    ++ codes "?ssl=true&sslmode=require&sslrootcert="
    ++ certs
    ++ codes "/ca.crt&sslkey="
    ++ certs
    ++ codes "/client."
    ++ user
    ++ codes ".key&sslcert="
    ++ certs
    ++ codes "/client."
    ++ user
    ++ codes ".crt"

-- The URL of NewConnUsingPassword
unfoldable pub password_url : GoString → GoString → GoString → GoString → GoString
password_url host database user password =
    codes "postgresql://"
    ++ user
    ++ codes ":"
    ++ password
    ++ codes "@"
    ++ host
    ++ codes "/"
    ++ database
    ++ codes "?ssl=true&sslmode=require"

-- strings.Split(output, "\n")[0] without the quotes
unfoldable pub first_line : GoString → GoString
first_line [] = []
first_line (c ∷ output) =
    let rest = first_line output in if c == 10 then [] else if c == b'\'' then rest else c ∷ rest

is_digit : ℕ → Bool
is_digit c = leb b'0' c && leb c b'9'

-- Whether a text begins with digits, a point and so on: `seen` says that the group that is read has a digit,
-- and the number is that of the points still to come.
groups : ℕ → Bool → GoString → Bool
unfolding is_digit
groups zero true s = true
groups zero false [] = false
groups zero false (c ∷ s) = is_digit c
groups (suc n) seen [] = false
groups (suc n) seen (c ∷ s) =
    let more = groups (suc n) true s in
    let next = groups n false s in if is_digit c then more else (seen && c == b'.') && next

-- regexp.MatchString of four groups of digits with points between them, anywhere in the text
unfoldable pub has_ip : GoString → Bool
unfolding groups
has_ip [] = false
has_ip (c ∷ s) = groups 3 false (c ∷ s) || has_ip s

module _ {Db : Type 0} (open_db : GoString → Outcome GoString Db) where
  -- NewConnUsingCerts
  unfoldable pub new_conn_using_certs :
      GoString → GoString → GoString → GoString → Outcome GoString Db
  new_conn_using_certs host database user certs = open_db (certs_url host database user certs)

  -- NewConnUsingPassword
  unfoldable pub new_conn_using_password :
      GoString → GoString → GoString → GoString → Outcome GoString Db
  new_conn_using_password host database user password =
      open_db (password_url host database user password)

  -- NewConnUsingDocker, with the output of docker inspect, `none` if that fails
  unfoldable pub new_conn_using_docker :
      Option GoString → GoString → GoString → GoString → ℕ → Outcome GoString Db
  new_conn_using_docker none database user password port = panicked
  new_conn_using_docker (some output) database user password port =
      let host = first_line output in
      if not (has_ip host)
      then err (codes "'" ++ host ++ codes "' is not a valid IP")
      else new_conn_using_password (host ++ codes ":" ++ itoa port) database user password

-- The host that is taken from docker's output has neither a line break nor a quote.
pub first_line-clean :
    (output : GoString)
    → All (λ c. ((c == 10) ≡ false) × ((c == b'\'') ≡ false)) (first_line output)
unfolding first_line
first_line-clean [] = tt
first_line-clean (c ∷ output) = elim (Bool-cases (c == 10)) [
  | inl e ↦ rw (e, first_line) tt
  | inr e ↦ elim (Bool-cases (c == b'\'')) [
    | inl d ↦ rw (e, d, first_line) (first_line-clean output)
    | inr d ↦ rw (e, d, first_line) ((e, d), first_line-clean output)
  ]
]
