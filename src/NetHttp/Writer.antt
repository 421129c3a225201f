-- ===== src/NetHttp/Writer.antt =====
-- http.ResponseWriter of Go's standard library, as the server implements it: the headers are sent with the
-- first status, and a later status has no effect. The statuses are those that allow a body.
pub mod Sent
use gobol.Base.{◌≡◌, refl, ℕ, ◌+◌, Option, none, some, List, [], ◌∷◌, ◌++◌, length}
use gobol.Base.Text.{GoString, Bytes}
use gobol.NetHttp.Header.{Headers}

-- What a handler may call on a writer that is kept in a state.
pub record ResponseWriter (W : Type 0) : Type 0 where
  -- Header, the map that the handler reads and changes
  pub header : W → Headers
  pub set_header : Headers → W → W
  -- Write, with the text of its error if it fails
  pub write : Bytes → W → Option GoString × W
  -- WriteHeader
  pub write_header : ℕ → W → W

-- The number of bytes that a write reports: a write that fails counts none.
unfoldable pub count : Bytes → Option GoString → ℕ
count b none = length b
count b (some e) = 0

-- The response of one request. `faults` says which of the writes to come fail.
pub record Response : Type 0 where
  pub header : Headers
  pub status : Option ℕ
  pub sent : Headers
  pub body : Bytes
  pub faults : List (Option GoString)

-- (w *response) WriteHeader, for a status that is not an informational one
unfoldable pub send_header : ℕ → Response → Response
send_header s w = elim w.status [
  | none ↦ record w { status = some s; sent = w.header }
  | some _ ↦ w
]

append_body : Bytes → List (Option GoString) → Response → Option GoString × Response
append_body b [] w = (none, record w { body = w.body ++ b })
append_body b (none ∷ fs) w = (none, record w { body = w.body ++ b; faults = fs })
append_body b (some e ∷ fs) w = (some e, record w { faults = fs })

-- (w *response) Write: the status 200 comes with the first write.
unfoldable pub send : Bytes → Response → Option GoString × Response
unfolding append_body
send b w = append_body b w.faults (send_header 200 w)

abbrev pub server : ResponseWriter Response
server = record {
  header = λ w. w.header;
  set_header = λ h w. record w { header = h };
  write = send;
  write_header = send_header;
}

abbrev pub fresh : List (Option GoString) → Response
fresh faults = record { header = []; status = none; sent = []; body = []; faults = faults }
