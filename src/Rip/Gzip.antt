-- ===== src/Rip/Gzip.antt =====
-- rip/gzip_middleware.go, over any response writer and any compressor of compress/gzip.
pub mod Content
pub mod Through
use gobol.Base.{ℕ, not, ltb, Option, none, some, List, [], ◌∷◌, ◌++◌, length, if◌then◌else◌}
use gobol.Base.Text.{GoString, Bytes, codes, str_eq, contains}
use gobol.NetHttp.Header.{get, set, del}
use gobol.NetHttp.Writer.{ResponseWriter}
use gobol.NetHttp.Handler.{Request, Handler, Context, serve}

-- A gzip.Writer: the writes that it makes on the writer below it.
pub record Compressor : Type 1 where
  pub State : Type 0
  -- after Reset
  pub start : State
  -- Write
  pub push : Bytes → State → State × List Bytes
  -- Close
  pub finish : State → List Bytes

abbrev pub accept_encoding : GoString
accept_encoding = codes "Accept-Encoding"

abbrev pub content_encoding : GoString
content_encoding = codes "Content-Encoding"

abbrev pub content_length : GoString
content_length = codes "Content-Length"

abbrev pub encoding_gzip : GoString
encoding_gzip = codes "gzip"

-- GzipResponseWriter, with the state of its gzip.Writer and the error that this keeps.
pub record GzipResponseWriter (S W : Type 0) : Type 0 where
  pub inner : W
  pub state : S
  pub failed : Option GoString

module _ {W : Type 0} (o : ResponseWriter W) where
  write_next : (W → Option GoString × W) → Option GoString × W → Option GoString × W
  write_next k (none, w) = k w
  write_next k (some e, w) = (some e, w)

  -- The writes of a gzip.Writer, up to the first that fails.
  unfoldable pub write_all : List Bytes → W → Option GoString × W
  unfolding write_next
  write_all [] w = (none, w)
  write_all (b ∷ bs) w = write_next (write_all bs) (o.write b w)

  -- The headers that ServeHTTP sets.
  abbrev pub encoded : W → W
  encoded w =
      o.set_header
        (set (codes "Vary") accept_encoding (set content_encoding encoding_gzip (o.header w))) w

module _ (z : Compressor) {W : Type 0} (o : ResponseWriter W) where
  -- (w *GzipResponseWriter) Write
  unfoldable pub gzip_write :
      Bytes → GzipResponseWriter z.State W → Option GoString × GzipResponseWriter z.State W
  gzip_write b g = elim g.failed [
    | some e ↦ (some e, g)
    | none ↦
        let (s, bs) = z.push b g.state in
        let (e, w) = write_all o bs g.inner in (e, record { inner = w; state = s; failed = e })
  ]

  -- The writer that the next handler gets.
  abbrev pub compressing : ResponseWriter (GzipResponseWriter z.State W)
  compressing = record {
    header = λ g. o.header g.inner;
    set_header = λ h g. record g { inner = o.set_header h g.inner };
    write = gzip_write;
    write_header = λ s g. record g { inner = o.write_header s g.inner };
  }

  -- gz.Close
  unfoldable pub gzip_close : GzipResponseWriter z.State W → W
  gzip_close g = elim g.failed [
    | some e ↦ g.inner
    | none ↦ (write_all o (z.finish g.state) g.inner).1
  ]

  -- headers.Del of ServeHTTP
  abbrev unsized : GzipResponseWriter z.State W → GzipResponseWriter z.State W
  unsized g = record g { inner = o.set_header (del content_length (o.header g.inner)) g.inner }

  -- The part of ServeHTTP behind its three tests.
  unfoldable pub serve_compressed : Handler → W × Context → W × Context
  unfolding gzip_close
  serve_compressed next (w, context) =
      let (g, context') =
        serve compressing next
          (record { inner = encoded o w; state = z.start; failed = none }, context) in
      (gzip_close (unsized g), context')

  -- (h *GzipHandler) ServeHTTP
  unfoldable pub serve_gzip : (Request → Handler) → Request → W × Context → W × Context
  unfolding serve_compressed
  serve_gzip next r s =
      if not (contains (get r.header accept_encoding) encoding_gzip)
      then serve o (next r) s
      else if ltb 0 (length (get r.header (codes "Sec-WebSocket-Key")))
      then serve o (next r) s
      else if str_eq (get (o.header s.0) content_encoding) encoding_gzip
      then serve o (next r) s
      else serve_compressed (next r) s
