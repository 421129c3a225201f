-- ===== src/Tester/Server.antt =====
-- The server of tester/httpserver/httpserver.go. The network is a parameter: whether it listens.
pub mod Served
use gobol.Base.{
  ℕ, Bool, true, false, not, ◌||◌, ltb, Option, none, some, List, [], ◌∷◌, ◌++◌, length,
  if◌then◌else◌,
}
use gobol.Base.Text.{GoString, Bytes, codes, str_eq}
use gobol.Base.SyncMap.{SyncMap, load, store}
use gobol.Base.Outcome.{Outcome, ok, err}
use gobol.NetHttp.Header.{Headers, set}
use gobol.NetHttp.Writer.{Response, server, fresh}
use gobol.NetHttp.Bounded.{bounded}
use gobol.NetHttp.Handler.{
  Request, Handler, done, with_header, set_header, write, write_header, serve,
}
use gobol.Tester.Uri.{clean_uri}

-- RequestData
pub record RequestData : Type 0 where
  pub uri : GoString
  pub body : Bytes
  pub method : GoString
  pub headers : Headers

-- ResponseData
pub record ResponseData : Type 0 where
  pub request : RequestData
  pub status : ℕ

-- HTTPServer, with the requests that wait in its channel
pub record HttpServer : Type 0 where
  pub response_map : SyncMap ResponseData
  pub channel_size : ℕ
  pub requests : List RequestData

pub data Error : Type 0 where
  no_response : Error
  not_listening : GoString → Error

unfoldable pub cleaned : ResponseData → ResponseData
cleaned d = record d { request = record d.request { uri = clean_uri d.request.uri } }

-- The loop of NewHTTPServer over the responses.
unfoldable pub store_responses : List ResponseData → SyncMap ResponseData → SyncMap ResponseData
unfolding cleaned
store_responses [] m = m
store_responses (d ∷ ds) m = store_responses ds (store m (clean_uri d.request.uri) (cleaned d))

-- NewHTTPServer; `listen` is the error of net.Listen.
unfoldable pub new_http_server : Option GoString → ℕ → List ResponseData → Outcome Error HttpServer
new_http_server listen channel_size [] = err no_response
new_http_server (some e) channel_size (d ∷ ds) = err (not_listening e)
new_http_server none channel_size (d ∷ ds) = ok (record {
  response_map = store_responses (d ∷ ds) [];
  channel_size = channel_size;
  requests = [];
})

-- The values of one header, the last of which stays.
set_each : GoString → List GoString → Headers → Headers
set_each name [] dest = dest
set_each name (v ∷ vs) dest = set_each name vs (set name v dest)

-- CopyHeaders
unfoldable pub copy_headers : Headers → Headers → Headers
unfolding set_each
copy_headers [] dest = dest
copy_headers ((name, values) ∷ source) dest = copy_headers source (set_each name values dest)

write_body : Bytes → Handler
write_body [] = done
write_body (x ∷ b) = write (x ∷ b) (λ e. done)

-- The headers of a response: those that are configured, and over them those of the request.
abbrev pub combined : Request → ResponseData → Headers → Headers
combined r d h = copy_headers r.header (copy_headers d.request.headers h)

-- The response of handler.
respond : Request → Option ResponseData → Handler
unfolding write_body
respond r none = write_header 404 done
respond r (some d) =
    if not (str_eq d.request.method r.method)
    then write_header 404 done
    else with_header
        (λ h. set_header (combined r d h) (write_header d.status (write_body d.request.body)))

-- The request that handler sends to the channel, if it sends one.
recorded : Request → Option ResponseData → Option RequestData
recorded r none = none
recorded r (some d) =
    if not (str_eq d.request.method r.method)
    then none
    else some (record {
      uri = clean_uri r.request_uri;
      body = r.body;
      method = r.method;
      headers = r.header;
    })

-- The send to the channel, which waits if the channel is full.
pub data Handled : Type 0 where
  handled : Response → HttpServer → Handled
  waits : Response → Handled

sent : Response → Option RequestData → HttpServer → Handled
sent w none hl = handled w hl
sent w (some q) hl =
    if ltb (length hl.requests) hl.channel_size
    then handled w (record hl { requests = hl.requests ++ q ∷ [] })
    else waits w

-- (hl *HTTPServer) handler, on the response of a request
unfoldable pub handle : HttpServer → Request → Response → Handled
unfolding respond recorded sent
handle hl r w =
    let d = load hl.response_map (clean_uri r.request_uri) in
    sent (serve (bounded (str_eq r.method (codes "HEAD"))) (respond r d) (w, none)).0 (recorded r d)
      hl
