-- ===== src/Rip/Stack.antt =====
-- The log middleware in front of the gzip middleware, as a server puts them around its handlers.
use mathlib.Core.Path.{subst}
use gobol.Base.{◌≡◌, ap, sym, ℕ, Bool, true, false, Option, none, some, []}
use gobol.Base.Text.{GoString, Bytes, codes, str_eq, contains}
use gobol.Base.Int.{ℤ}
use gobol.NetHttp.Header.{get}
use gobol.NetHttp.Writer.{server, fresh}
use gobol.NetHttp.Writer.Sent.{plain}
use gobol.NetHttp.Handler.{Request, Handler, serve}
use gobol.Snitch.Point.{Arithmetic}
use gobol.Snitch.Registry.{Stats}
use gobol.Rip.Gzip.{
  Compressor, encoded, serve_gzip, accept_encoding, content_encoding, encoding_gzip,
}
use gobol.Rip.Gzip.Content.{IsGzip, Carries, serve_gzip-content}
use gobol.Rip.Gzip.Through.{serve_gzip-over}
use gobol.Rip.LogWriter.{logging, logged}
use gobol.Rip.LogWriter.Recorded.{logging-IsMorphism}
use gobol.Rip.LogMiddleware.{Moment, LogHandler, identify, serve_around}

module _ (parses : GoString → Bool) (ops : Arithmetic) (z : Compressor) where
  -- For a request that accepts gzip and is no web socket handshake, on a fresh response whose writes do not
  -- fail, where the headers of the request's id hold no Content-Encoding of gzip, and for a handler that
  -- sends a response: behind the log middleware and the gzip middleware in it, the body is decompressed to
  -- the body that the handler sends without either of them, with the same status and the same headers,
  -- those of a handler that finds the headers of the id, Content-Encoding and Vary set. So also a
  -- Content-Length that the handler sets is sent, which is that of the content before compression.
  pub serve_around-content :
      {ungzip : Bytes → Option Bytes} (law : IsGzip z ungzip) (h : LogHandler) (moment : Moment)
      (rid : GoString) (d : ℤ) (next : Request → Handler) (r : Request) (st : Stats) {s : ℕ}
      → contains (get r.header accept_encoding) encoding_gzip ≡ true
      → get r.header (codes "Sec-WebSocket-Key") ≡ []
      → str_eq (get (identify h rid []) content_encoding) encoding_gzip ≡ false
      → (serve server
          (next r)
          (encoded server (plain (identify h rid []) none [] []), some [])).0.status
        ≡ some s
      → Carries ungzip
          (serve_around parses ops server h moment rid d
            (serve_gzip z (logging server) next r)
            r
            (fresh [], st)).0
          (serve server (next r) (encoded server (plain (identify h rid []) none [] []), some [])).0
  unfolding serve_around
  serve_around-content {ungzip} law h moment rid d next r st a w e q =
      let named = plain (identify h rid []) none [] [] in
      let same = serve_gzip-over (logging-IsMorphism server) z next r (logged named) (some []) in
      subst (λ x. Carries ungzip x (serve server (next r) (encoded server named, some [])).0)
        (sym (ap (λ x. x.0) same))
        (serve_gzip-content z law next r (identify h rid []) (some []) a w e q).0
