-- ===== src/Tester/Tests.antt =====
-- The theorems on the test server at concrete responses.
use gobol.Base.{
  ◌≡◌, refl, ℕ, ◌≤◌, true, false, Option, none, some, [], ◌∷◌, ◌++◌, ◌==◌, if◌then◌else◌,
}
use gobol.Base.Text.{GoString, codes, has_prefix, str_eq}
use gobol.Base.SyncMap.{load, store}
use gobol.Base.Outcome.{ok}
use gobol.NetHttp.Header.{get, canonical}
use gobol.NetHttp.Writer.{fresh, send_header}
use gobol.NetHttp.Bounded.{declared_length, body_allowed, fits, send_bounded, status_allows}
use gobol.NetHttp.Handler.{Request, serve}
use gobol.Tester.Uri.{bar, clean_uri, collapse, clean_uri-clean_uri}
use gobol.Tester.Server.{
  RequestData, ResponseData, HttpServer, store_responses, new_http_server, copy_headers, handled,
  handle,
}
use gobol.Tester.Client.{Outgoing, HttpClient, address}
use gobol.Tester.Client.Answered.{reply_of}
use gobol.Tester.Server.Served.{Shows, handle-bare}
use gobol.Tester.Wait.{wait_for_request, wait_loop, first_within, wait_for_request-ends}

cleaned_twice : clean_uri (clean_uri (codes "a//b")) ≡ clean_uri (codes "a//b")
cleaned_twice = clean_uri-clean_uri (codes "a//b")

cleaned : clean_uri (codes "a//b") ≡ codes "a/b/"
unfolding clean_uri collapse has_prefix
cleaned = refl

abbrev configured : GoString → ResponseData
configured uri = record {
  request = record { uri = uri; body = codes "ok"; method = codes "GET"; headers = [] };
  status = 201;
}

abbrev request : Request
request = record {
  method = codes "GET";
  proto = codes "HTTP/1.1";
  path = codes "/api";
  request_uri = codes "/api";
  header = [];
  body = [];
}

barred : has_prefix (codes "/api") bar ≡ true
unfolding has_prefix
barred = refl

bare : has_prefix (codes "api") bar ≡ false
unfolding has_prefix
bare = refl

unreachable :
    (hl : HttpServer) × (new_http_server none 5 (configured (codes "api") ∷ []) ≡ ok hl)
    × Shows (handle hl request (fresh [])) (404, [], [], [])
unreachable =
    handle-bare 5 (configured (codes "api")) [] request refl barred
      ((b'a', codes "pi", refl, bare), tt)

-- A request that comes in the third second.
abbrev third : ℕ → Option ℕ
third n = if n == 2 then some 7 else none

wait_for_request-ends_example :
    (t : ℕ) × (wait_for_request third ≡ some (first_within 10 third 0, t)) × (t ≤ 10)
wait_for_request-ends_example = wait_for_request-ends third

waited : wait_for_request third ≡ some (some 7, 2)
unfolding wait_for_request wait_loop
waited = refl

abbrev made : HttpServer
made = record {
  response_map = store_responses (configured (codes "//api") ∷ []) [];
  channel_size = 5;
  requests = [];
}

-- The request at the server: the path is what follows the address.
abbrev arrived : Outgoing → Request
arrived o = record {
  method = o.method;
  proto = codes "HTTP/1.1";
  path = codes "//api";
  request_uri = codes "//api";
  header = o.header;
  body = o.body;
}

abbrev client : HttpClient
client = record {
  new_request =
      λ m url b. some (record { method = m; url = url; request_uri = []; header = []; body = b });
  exchange = λ o. reply_of o (handle made (arrived o) (fresh []));
}

abbrev asked : RequestData
asked = record { uri = codes "/api"; body = []; method = codes "GET"; headers = [] }

abbrev outgoing : Outgoing
outgoing = record {
  method = codes "GET";
  url = address ++ b'/' ∷ codes "/api";
  request_uri = [];
  header = [];
  body = [];
}

-- A request with a body has a Content-Length, which bounds the response: nothing of "ok" is sent.
shortened :
    handle made
      (record request { header = (codes "Content-Length", codes "1" ∷ []) ∷ [] })
      (fresh [])
    ≡ handled
        (record (fresh []) {
          header = (codes "Content-Length", codes "1" ∷ []) ∷ [];
          status = some 201;
          sent = (codes "Content-Length", codes "1" ∷ []) ∷ [];
        })
        (record made {
          requests =
              record {
                uri = codes "/api";
                body = [];
                method = codes "GET";
                headers = (codes "Content-Length", codes "1" ∷ []) ∷ [];
              }
              ∷ [];
        })
unfolding handle store_responses clean_uri collapse has_prefix serve send_header send_bounded
    declared_length body_allowed fits status_allows str_eq copy_headers get canonical load store
shortened = refl
