-- ===== src/Tester/Client/Answered.antt =====
-- What DoRequest gets from the test server.
use gobol.Base.{
  ◌≡◌, ap, ◌∙◌, refl, ℕ, Bool, true, false, not, ◌||◌, length, ◌==◌, if◌then◌else◌, Option, none,
  some, List, [], ◌∷◌, ◌++◌,
}
use gobol.Base.Text.{Bytes, codes, str_eq}
use gobol.Base.Outcome.{ok}
use gobol.NetHttp.Header.{Headers}
use gobol.NetHttp.Writer.{Response}
use gobol.NetHttp.Bounded.{declared_length, body_allowed, status_allows}
use gobol.Tester.Server.{RequestData, ResponseData, copy_headers, Handled, handled, waits}
use gobol.Tester.Server.Served.{Shows}
use gobol.Tester.Client.{Outgoing, Reply, HttpClient, address, parse_response, do_request}

abbrev wire_status : Option ℕ → ℕ
wire_status none = 200
wire_status (some s) = s

-- What the client reads of a body; `none` is an error, where less is sent than is declared.
read_body : Bool → Response → Option Bytes
read_body head w =
    if head || not (status_allows w.status) then some [] else (elim (declared_length w.sent) [
      | none ↦ some w.body
      | some n ↦ if length w.body == n then some w.body else none
    ])

-- What the client gets when the handler is done with its request. A handler that waits for room in the
-- channel is not done within the second that the client waits.
unfoldable pub reply_of : Outgoing → Handled → Option Reply
unfolding read_body
reply_of o (handled w hl) = some (record {
  request = o;
  status = wire_status w.status;
  header = w.sent;
  body = read_body (str_eq o.method (codes "HEAD")) w;
})
reply_of o (waits w) = none

-- The request as DoRequest sends it.
abbrev pub sent_of : RequestData → Outgoing → Outgoing
sent_of q o = record o { header = copy_headers q.headers o.header }

read_body-whole :
    (w : Response) (head : Bool) (status : ℕ) (headers : Headers)
    → head ≡ false
    → w.status ≡ some status
    → body_allowed status ≡ true
    → w.sent ≡ headers
    → declared_length headers ≡ none
    → read_body head w ≡ some w.body
unfolding read_body status_allows
read_body-whole w head status headers h s a e d = rw (h, s, a, e, d) refl

-- What is shown to a client that parses the reply.
parsed :
    (c : HttpClient) (q : RequestData) (o : Outgoing) (h : Handled) (s : ℕ) (headers : Headers)
    (b : Bytes) (requests : List RequestData)
    → c.new_request q.method (address ++ b'/' ∷ q.uri) q.body ≡ some o
    → c.exchange (sent_of q o) ≡ reply_of (sent_of q o) h
    → str_eq o.method (codes "HEAD") ≡ false
    → body_allowed s ≡ true
    → declared_length headers ≡ none
    → Shows h (s, headers, b, requests)
    → (result : ResponseData) × (do_request c q ≡ ok result)
      × (result.status ≡ s)
      × (result.request.body ≡ b)
      × (result.request.uri ≡ q.uri)
unfolding do_request parse_response reply_of
parsed c q o h s headers b requests n x m a d (w, hl, e, st, sn, bd, rq) =
    let answer = x ∙ ap (reply_of (sent_of q o)) e in
    rw (n, answer, read_body-whole w (str_eq o.method (codes "HEAD")) s headers m st a sn d)
      (_, refl, ap wire_status st, bd, refl)
