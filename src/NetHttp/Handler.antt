-- ===== src/NetHttp/Handler.antt =====
-- An http.Handler of Go's standard library at one request: the calls that it makes on the response writer
-- and on the context of the request, each of which may depend on the results before it.
use gobol.Base.{◌≡◌, ap, ℕ, Option, none, some, List, [], ◌∷◌}
use gobol.Base.Text.{GoString, Bytes}
use gobol.Base.SyncMap.{SyncMap, store}
use gobol.NetHttp.Header.{Headers}
use gobol.NetHttp.Writer.{ResponseWriter}

pub record Request : Type 0 where
  pub method : GoString
  pub proto : GoString
  pub path : GoString
  pub request_uri : GoString
  pub header : Headers
  pub body : Bytes

pub data Handler : Type 0 where
  done : Handler
  with_header : (Headers → Handler) → Handler
  set_header : Headers → Handler → Handler
  write : Bytes → (Option GoString → Handler) → Handler
  write_header : ℕ → Handler → Handler
  -- rip.AddStatsMap on the context of the request
  add_stats : List (GoString × GoString) → Handler → Handler

-- The value of the context at statsTagskey, if there is one.
abbrev pub Context : Type 0
Context = Option (SyncMap GoString)

store_each : List (GoString × GoString) → SyncMap GoString → SyncMap GoString
store_each [] m = m
store_each ((k, v) ∷ tags) m = store_each tags (store m k v)

-- AddStatsMap of rip/log_middleware.go
unfoldable pub add_stats_map : List (GoString × GoString) → Context → Context
unfolding store_each
add_stats_map tags none = none
add_stats_map tags (some m) = some (store_each tags m)

unfoldable pub serve : {W : Type 0} → ResponseWriter W → Handler → W × Context → W × Context
serve o done s = s
serve o (with_header k) s = serve o (k (o.header s.0)) s
serve o (set_header h next) s = serve o next (o.set_header h s.0, s.1)
serve o (write b k) s = let (e, w) = o.write b s.0 in serve o (k e) (w, s.1)
serve o (write_header n next) s = serve o next (o.write_header n s.0, s.1)
serve o (add_stats tags next) s = serve o next (s.0, add_stats_map tags s.1)

pub serve-write :
    {W : Type 0} (o : ResponseWriter W) (b : Bytes) (k : Option GoString → Handler) (w : W)
    (c : Context) {x : Option GoString × W}
    → o.write b w ≡ x
    → serve o (write b k) (w, c) ≡ serve o (k x.0) (x.1, c)
unfolding serve
serve-write o b k w c h = ap (λ x. serve o (k x.0) (x.1, c)) h
