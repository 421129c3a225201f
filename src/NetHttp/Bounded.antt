-- ===== src/NetHttp/Bounded.antt =====
-- http.ResponseWriter where the method of the request, the status or the Content-Length of the response bounds
-- the body: Write of net/http refuses what a status allows no body for or what is more than the declared
-- length, and drops what answers a HEAD request. It is for handlers that write once.
use gobol.Base.{
  ℕ, ◌+◌, ◌*◌, ◌-◌, Bool, true, not, ◌&&◌, ◌||◌, Option, none, some, [], ◌∷◌, ◌++◌, length, leb,
  ◌==◌, if◌then◌else◌,
}
use gobol.Base.Text.{GoString, Bytes, codes}
use gobol.NetHttp.Header.{Headers, get}
use gobol.NetHttp.Writer.{ResponseWriter, Response, send, send_header}

digits_value : GoString → ℕ → Option ℕ
digits_value [] n = some n
digits_value (c ∷ cs) n =
    let rest = digits_value cs (n * 10 + (c - b'0')) in
    if leb b'0' c && leb c b'9' then rest else none

-- The length that headers declare, by digits.
unfoldable pub declared_length : Headers → Option ℕ
unfolding digits_value
declared_length h = elim (get h (codes "Content-Length")) [
  | [] ↦ none
  | c ∷ cs ↦ digits_value (c ∷ cs) 0
]

unfoldable pub body_allowed : ℕ → Bool
body_allowed status = not ((leb 100 status && leb status 199) || status == 204 || status == 304)

unfoldable pub fits : Headers → Bytes → Bool
fits h b = elim (declared_length h) [ none ↦ true | some n ↦ leb (length b) n ]

-- What of a body is sent in one write, with a status and headers; `head` is for the method HEAD.
unfoldable pub body_of : Bool → ℕ → Headers → Bytes → Bytes
body_of head status h b =
    if not (body_allowed status && fits h b) then [] else if head then [] else b

unfoldable pub status_allows : Option ℕ → Bool
status_allows none = true
status_allows (some status) = body_allowed status

-- (w *response) Write
unfoldable pub send_bounded : Bool → Bytes → Response → Option GoString × Response
send_bounded head b w =
    let named = send_header 200 w in
    if not (status_allows named.status && fits named.sent (named.body ++ b))
    then (some (codes "http: wrote more than the declared Content-Length"), named)
    else if head
    then (none, named)
    else send b named

abbrev pub bounded : Bool → ResponseWriter Response
bounded head = record {
  header = λ w. w.header;
  set_header = λ h w. record w { header = h };
  write = send_bounded head;
  write_header = send_header;
}
