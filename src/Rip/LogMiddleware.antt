-- ===== src/Rip/LogMiddleware.antt =====
-- LogHandler of rip/log_middleware.go: a request is served and counted. cors.AllowAll is the caller's part
-- of the next handler. Each call of the statistics is one step here: no other call of them overlaps it.
pub mod Counted
use gobol.Base.{
  ℕ, ◌+◌, ◌/◌, ◌%◌, zero, suc, ltb, ◌==◌, Bool, true, false, ◌||◌, none, some, List, [], ◌∷◌, ◌++◌,
  if◌then◌else◌, Option,
}
use gobol.Base.Text.{GoString, codes, str_eq, itoa}
use gobol.Base.Int.{ℤ, pos}
use gobol.Base.SyncMap.{SyncMap, store}
use gobol.NetHttp.Header.{Headers, get, add}
use gobol.NetHttp.Writer.{ResponseWriter}
use gobol.NetHttp.Handler.{Request, Handler, Context, serve}
use gobol.Snitch.Point.{Arithmetic}
use gobol.Snitch.Registry.{Stats, increment, value_add}
use gobol.Rip.LogWriter.{LogResponseWriter, logging, logged}

pub record LogHandler : Type 0 where
  pub service : GoString
  pub system : GoString

-- fmt.Sprintf("X-REQUEST-%s-ID", name)
abbrev id_header : GoString → GoString
id_header name = codes "X-REQUEST-" ++ name ++ codes "-ID"

-- The headers of a response with the id of its request.
unfoldable pub identify : LogHandler → GoString → Headers → Headers
identify h rid header =
    let named = add (id_header h.service) rid header in
    if str_eq (get named (id_header h.system)) [] then add (id_header h.system) rid named else named

copy_tags : List (GoString × GoString) → SyncMap GoString → SyncMap GoString
copy_tags [] tags = tags
copy_tags ((k, v) ∷ user) tags = copy_tags user (store tags k v)

user_tags : Context → SyncMap GoString → SyncMap GoString
unfolding copy_tags
user_tags none tags = tags
user_tags (some user) tags = copy_tags user tags

-- The tags of the two points of a request.
unfoldable pub tags_of : Request → ℕ → Context → SyncMap GoString
unfolding user_tags
tags_of r status user =
    let tags =
      (codes "protocol", r.proto)
      ∷ (codes "method", r.method)
      ∷ (codes "status", itoa status)
      ∷ [] in
    user_tags user
      (if status == 404 || status == 405 then tags else store tags (codes "path") r.path)

-- When the goroutine counts the connection: before the two points of the request, between them, or after.
pub data Moment : Type 0 where
  before between after : Moment

module _ (parses : GoString → Bool) (ops : Arithmetic) where
  -- (h *LogHandler) increment
  count_request : List (GoString × GoString) → Stats → Stats
  count_request tags st =
      (increment parses ops (codes "request.count") tags (codes "@every 1m") false true st).0

  -- (h *LogHandler) valueAdd, at the time that the request took in nanoseconds
  add_duration : List (GoString × GoString) → ℤ → Stats → Stats
  add_duration tags d st =
      (value_add parses ops (codes "request.duration") tags (codes "avg") (codes "@every 1m") false
        false (ops.div (ops.of_int d) (ops.of_int (pos 1000000))) st).0

  -- (h *LogHandler) incrementHTTPConn, which runs in a goroutine of its own
  unfoldable pub increment_http_conn : Stats → Stats
  increment_http_conn st =
      (increment parses ops (codes "network.connection")
        ((codes "type", codes "tcp") ∷ (codes "source", codes "http") ∷ []) (codes "@every 10s")
        false true st).0

  -- The two points of a request, and the one of its connection.
  unfoldable pub account : Moment → List (GoString × GoString) → ℤ → Stats → Stats
  unfolding count_request add_duration increment_http_conn
  account before tags d st = add_duration tags d (count_request tags (increment_http_conn st))
  account between tags d st = add_duration tags d (increment_http_conn (count_request tags st))
  account after tags d st = increment_http_conn (add_duration tags d (count_request tags st))

  -- (h *LogHandler) ServeHTTP, with the id and the duration of the request; `moment` is that of the goroutine, and
  -- `run` is the call of the next handler.
  unfoldable pub serve_around :
      {W : Type 0}
      → ResponseWriter W
      → LogHandler
      → Moment
      → GoString
      → ℤ
      → (LogResponseWriter W × Context → LogResponseWriter W × Context)
      → Request
      → W × Stats
      → W × Stats
  serve_around o h moment rid d run r (w, st) =
      let named = o.set_header (identify h rid (o.header w)) w in
      let (l, user) = run (logged named, some []) in
      (l.inner, account moment (tags_of r l.status user) d st)

  -- ServeHTTP in front of a handler
  abbrev pub serve_http :
      {W : Type 0}
      → ResponseWriter W
      → LogHandler
      → Moment
      → GoString
      → ℤ
      → (Request → Handler)
      → Request
      → W × Stats
      → W × Stats
  serve_http o h moment rid d next r = serve_around o h moment rid d (serve (logging o) (next r)) r
