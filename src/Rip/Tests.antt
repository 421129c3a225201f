-- ===== src/Rip/Tests.antt =====
-- The theorems on the package rip at concrete requests, and runs of its handlers.
use gobol.Base.{
  ◌≡◌, ◌≢◌, refl, Bool, true, false, Option, none, some, List, [], ◌∷◌, ◌++◌, ap, ◌∙◌, ◌+◌, length,
  append-nil, append_assoc,
}
use gobol.Base.Text.{Bytes, codes, str_eq, has_prefix, contains}
use gobol.Base.SyncMap.{load, store, delete}
use gobol.Base.Int.{pos}
use gobol.NetHttp.Header.{get, set, add, canonical}
use gobol.NetHttp.Writer.{server, fresh, send, send_header}
use gobol.NetHttp.Handler.{
  Request, Handler, done, with_header, set_header, write, write_header, add_stats, serve,
}
use gobol.Snitch.Point.{Arithmetic}
use gobol.Snitch.Registry.{Stats}
use gobol.Rip.Respond.{CustomError, ErrorJson}
use gobol.Rip.Gzip.{
  Compressor, encoded, serve_gzip, serve_compressed, gzip_write, gzip_close, write_all,
  content_length,
}
use gobol.Rip.Gzip.Content.{IsGzip, Carries, concat, feed}
use gobol.Rip.LogWriter.{logging, logged}
use gobol.Rip.LogWriter.Recorded.{sent_status, serve-records}
use gobol.NetHttp.Writer.Sent.{plain}
use gobol.Rip.Stack.{serve_around-content}
use gobol.Rip.LogMiddleware.{before, LogHandler, identify, serve_around}

-- A handler with a Content-Length, a status and a body.
abbrev hello : Handler
hello = with_header (λ h. set_header (set (codes "Content-Length") (codes "5") h) (
    write_header 201
      (write (codes "hello") (λ e. add_stats ((codes "user", codes "u") ∷ []) done))))

serve-records_example :
    ((serve
        (logging server)
        hello
        (logged (fresh (some (codes "broken pipe") ∷ [])), none)).0.status
      ≡ sent_status
          (serve
            (logging server)
            hello
            (logged (fresh (some (codes "broken pipe") ∷ [])), none)).0.inner.status)
    × ((serve
          (logging server)
          hello
          (logged (fresh (some (codes "broken pipe") ∷ [])), none)).0.size
        ≡ length
            (serve
              (logging server)
              hello
              (logged (fresh (some (codes "broken pipe") ∷ [])), none)).0.inner.body)
serve-records_example =
    serve-records hello (some (codes "broken pipe") ∷ []) none (λ h. (refl, refl, λ e. tt))

-- A second status is recorded, though it was not sent.
recorded_twice :
    (serve (logging server) (write_header 400 (write_header 500 done)) (logged (fresh []), none)).0
    ≡ record {
      inner = record { header = []; status = some 400; sent = []; body = []; faults = [] };
      status = 500;
      size = 0;
    }
unfolding serve send_header
recorded_twice = refl

abbrev not_known : CustomError
not_known = record {
  error = none;
  msg = codes "no such key";
  pkg = codes "p";
  function = codes "f";
  http_code = 404;
}

abbrev message : ErrorJson → Bytes
message ej = ej.message

-- A format that puts one byte in front of the content.
push_stored : Bytes → Bool → Bool × List Bytes
push_stored b true = (true, b ∷ [])
push_stored b false = (true, (31 ∷ []) ∷ b ∷ [])

finish_stored : Bool → List Bytes
finish_stored true = []
finish_stored false = (31 ∷ []) ∷ []

unstore : Bytes → Option Bytes
unstore [] = none
unstore (x ∷ b) = some b

abbrev stored : Compressor
stored = record { State = Bool; start = false; push = push_stored; finish = finish_stored }

feed-stored :
    (bs : List Bytes) (out : Bytes) → feed stored bs (true, out) ≡ (true, out ++ concat bs)
unfolding push_stored
feed-stored [] out = ap (λ x. (true, x)) (rw append-nil)
feed-stored (b ∷ bs) out =
    feed-stored bs (out ++ (b ++ []))
    ∙ ap (λ x. (true, x)) (rw (append-nil b) (append_assoc out b (concat bs)))

stored-inverse :
    (bs : List Bytes)
    → unstore
        ((feed stored bs (false, [])).1 ++ concat (finish_stored (feed stored bs (false, [])).0))
      ≡ some (concat bs)
unfolding unstore finish_stored push_stored
stored-inverse [] = refl
stored-inverse (b ∷ bs) = rw (feed-stored bs (31 ∷ (b ++ []))) (ap some (simp append-nil))

stored-first : (b : Bytes) → (push_stored b false).1 ≢ []
unfolding push_stored
stored-first b h = cc

stored-IsGzip : IsGzip stored unstore
stored-IsGzip = record { inverse = stored-inverse; first = stored-first }

abbrev request : Request
request = record {
  method = codes "GET";
  proto = codes "HTTP/1.1";
  path = codes "/a";
  request_uri = codes "/a";
  header = (codes "Accept-Encoding", codes "gzip" ∷ []) ∷ [];
  body = [];
}

abbrev plain_ops : Arithmetic
plain_ops = record { add = λ x y. x + y; div = λ x y. x; of_int = λ i. 0 }

abbrev handler : LogHandler
handler = record { service = codes "shop"; system = codes "web" }

abbrev no_stats : Stats
no_stats = record { tags = []; points = []; jobs = [] }

-- The tests of ServeHTTP compute on the headers of the examples.
accepts : contains (get request.header (codes "Accept-Encoding")) (codes "gzip") ≡ true
unfolding contains has_prefix get canonical load str_eq
accepts = refl

no_handshake : get request.header (codes "Sec-WebSocket-Key") ≡ []
unfolding get canonical load str_eq
no_handshake = refl

no_coding :
    str_eq (get (identify handler (codes "1") []) (codes "Content-Encoding")) (codes "gzip") ≡ false
unfolding identify add get canonical load store str_eq
no_coding = refl

answered :
    (serve server hello
      (encoded server (plain (identify handler (codes "1") []) none [] []), some [])).0.status
    ≡ some 201
unfolding serve send_header send
answered = refl

-- The Content-Length that is sent is that of the content before compression.
length_stays :
    get (serve_gzip stored server (λ r. hello) request (fresh [], none)).0.sent content_length
    ≡ codes "5"
unfolding serve_gzip serve_compressed gzip_write gzip_close write_all push_stored finish_stored
    contains has_prefix get canonical load store delete str_eq serve send_header send
length_stays = refl

serve_around-content_example :
    Carries unstore
      (serve_around
        (λ i. true)
        plain_ops
        server
        handler
        before
        (codes "1")
        (pos 7)
        (serve_gzip stored (logging server) (λ r. hello) request)
        request
        (fresh [], no_stats)).0
      (serve server hello
        (encoded server (plain (identify handler (codes "1") []) none [] []), some [])).0
serve_around-content_example =
    serve_around-content (λ i. true) plain_ops stored stored-IsGzip handler before (codes "1")
      (pos 7) (λ r. hello) request no_stats accepts no_handshake no_coding answered
