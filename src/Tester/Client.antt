-- ===== src/Tester/Client.antt =====
-- DoRequest and ParseResponse of tester/httpserver, over the client of net/http as a parameter.
pub mod Answered
use gobol.Base.{ℕ, Option, none, some, List, [], ◌∷◌, ◌++◌}
use gobol.Base.Text.{GoString, Bytes, codes, itoa}
use gobol.Base.Outcome.{Outcome, ok, err, panicked, ◌>>=◌}
use gobol.NetHttp.Header.{Headers}
use gobol.Tester.Server.{RequestData, ResponseData, HttpServer, copy_headers, new_http_server}

-- http.Request as the client makes it: http.NewRequest leaves RequestURI empty.
pub record Outgoing : Type 0 where
  pub method : GoString
  pub url : GoString
  pub request_uri : GoString
  pub header : Headers
  pub body : Bytes

-- http.Response, with the request that was sent to get it; `none` if the body cannot be read.
pub record Reply : Type 0 where
  pub request : Outgoing
  pub status : ℕ
  pub header : Headers
  pub body : Option Bytes

-- http.NewRequest and Do of the client that util.CreateHTTPClient makes; `none` is an error.
pub record HttpClient : Type 0 where
  pub new_request : GoString → GoString → Bytes → Option Outgoing
  pub exchange : Outgoing → Option Reply

-- The address of the test server, TestServerHost and TestServerPort.
abbrev pub address : GoString
address = codes "http://localhost:" ++ itoa 18080

-- ParseResponse; `none` is the error of reading the body.
unfoldable pub parse_response : Reply → Option ResponseData
parse_response res = elim res.body [
  | none ↦ none
  | some b ↦ some (record {
    request = record {
      uri = res.request.request_uri;
      body = b;
      method = res.request.method;
      headers = res.header;
    };
    status = res.status;
  })
]

-- if err != nil { panic(err) }
abbrev or_panic : {A : Type 0} → Option A → Outcome ⊥ A
or_panic none = panicked
or_panic (some a) = ok a

-- DoRequest, whose errors are panics
unfoldable pub do_request : HttpClient → RequestData → Outcome ⊥ ResponseData
unfolding parse_response
do_request client request = do
  req ← or_panic (client.new_request request.method (address ++ b'/' ∷ request.uri) request.body)
  res ← or_panic (client.exchange (record req { header = copy_headers request.headers req.header }))
  result ← or_panic (parse_response res)
  ok (record result { request = record result.request { uri = request.uri } })

-- CreateNewTestHTTPServer, which panics when NewHTTPServer returns an error
unfoldable pub create_new_test_http_server :
    Option GoString → List ResponseData → Outcome ⊥ HttpServer
create_new_test_http_server listen responses = elim (new_http_server listen 5 responses) [
  | ok hs ↦ ok hs
  | err e ↦ panicked
  | panicked ↦ panicked
]
