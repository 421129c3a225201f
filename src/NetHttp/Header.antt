-- ===== src/NetHttp/Header.antt =====
-- http.Header and net/textproto.CanonicalMIMEHeaderKey of Go's standard library.
use gobol.Base.{
  ◌≡◌, ℕ, ◌+◌, ◌-◌, Bool, true, false, ◌&&◌, ◌||◌, Option, none, some, List, [], ◌∷◌, ◌++◌, leb,
  ◌==◌, if◌then◌else◌,
}
use gobol.Base.Text.{GoString, codes, str_eq_refl}
use gobol.Base.SyncMap.{SyncMap, load, store, delete, load-delete}

-- The values of each header, by its canonical key.
abbrev pub Headers : Type 0
Headers = SyncMap (List GoString)

is_in : ℕ → GoString → Bool
is_in c [] = false
is_in c (x ∷ xs) = c == x || is_in c xs

-- textproto.validHeaderFieldByte: the characters of a token
is_token : ℕ → Bool
unfolding is_in
is_token c =
    (leb b'A' c && leb c b'Z')
    || (leb b'a' c && leb c b'z')
    || (leb b'0' c && leb c b'9')
    || is_in c (codes "!#$%&'*+-.^_`|~")

all_tokens : GoString → Bool
unfolding is_token
all_tokens [] = true
all_tokens (c ∷ cs) = is_token c && all_tokens cs

upper_of : ℕ → ℕ
upper_of c = if leb b'a' c && leb c b'z' then c - 32 else c

lower_of : ℕ → ℕ
lower_of c = if leb b'A' c && leb c b'Z' then c + 32 else c

capitalize : Bool → GoString → GoString
unfolding upper_of lower_of
capitalize upper [] = []
capitalize upper (c ∷ cs) = (if upper then upper_of c else lower_of c) ∷ capitalize (c == b'-') cs

unfoldable pub canonical : GoString → GoString
unfolding all_tokens capitalize
canonical name = if all_tokens name then capitalize true name else name

first_of : Option (List GoString) → GoString
first_of none = []
first_of (some []) = []
first_of (some (v ∷ vs)) = v

-- (h Header) Get
unfoldable pub get : Headers → GoString → GoString
unfolding first_of
get h name = first_of (load h (canonical name))

-- (h Header) Set
abbrev pub set : GoString → GoString → Headers → Headers
set name v h = store h (canonical name) (v ∷ [])

values_of : Option (List GoString) → List GoString
values_of none = []
values_of (some vs) = vs

-- (h Header) Add
unfoldable pub add : GoString → GoString → Headers → Headers
unfolding values_of
add name v h = store h (canonical name) (values_of (load h (canonical name)) ++ v ∷ [])

-- (h Header) Del
abbrev pub del : GoString → Headers → Headers
del name h = delete h (canonical name)

pub get-del : (h : Headers) (name : GoString) → get (del name h) name ≡ []
unfolding get
get-del h name = rw (load-delete h (canonical name) (canonical name), str_eq_refl (canonical name))
