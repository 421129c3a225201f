-- ===== src/Tester/Server/Served.antt =====
-- What a test gets from the server.
use mathlib.Core.Path.{subst}
use gobol.Base.{
  ◌≡◌, ap, sym, ◌∙◌, refl, inl, inr, ℕ, Bool, true, false, ◌&&◌, ltb, Option, none, some, List, [],
  ◌∷◌, All, if◌then◌else◌, arith, Bool-cases, Option-cases,
}
use gobol.Base.Text.{GoString, Bytes, codes, str_eq, str_eq_iff, has_prefix}
use gobol.Base.SyncMap.{SyncMap, load, store, load-store}
use gobol.Base.Outcome.{ok}
use gobol.NetHttp.Writer.{Response, fresh, send, send_header}
use gobol.NetHttp.Header.{Headers}
use gobol.NetHttp.Writer.Sent.{plain}
use gobol.NetHttp.Bounded.{bounded, body_of, body_allowed, fits, send_bounded, status_allows}
use gobol.NetHttp.Handler.{Request, serve}
use gobol.Tester.Uri.{bar, clean_uri, clean_uri-kept, clean_uri-missed}
use gobol.Tester.Server.{
  RequestData, ResponseData, HttpServer, cleaned, store_responses, new_http_server, combined,
  copy_headers, respond, write_body, recorded, Handled, handled, waits, sent, handle,
}

-- The last response that is configured for a URI.
unfoldable pub last_for : List ResponseData → GoString → Option ResponseData
unfolding cleaned
last_for [] uri = none
last_for (d ∷ ds) uri = elim (last_for ds uri) [
  | some e ↦ some e
  | none ↦ if str_eq (clean_uri d.request.uri) uri then some (cleaned d) else none
]

load-store_responses :
    (ds : List ResponseData) (m : SyncMap ResponseData) (uri : GoString)
    → load (store_responses ds m) uri
      ≡ elim (last_for ds uri) [ some e ↦ some e | none ↦ load m uri ]
unfolding store_responses last_for
load-store_responses [] m uri = refl
load-store_responses (d ∷ ds) m uri = ground (
  arith,
  load-store_responses ds (store m (clean_uri d.request.uri) (cleaned d)) uri,
  load-store m (clean_uri d.request.uri) uri (cleaned d),
)

load-configured :
    (ds : List ResponseData) (uri : GoString) → load (store_responses ds []) uri ≡ last_for ds uri
unfolding load
load-configured ds uri = elim (Option-cases (last_for ds uri)) [
  | inl e ↦ ground (arith, load-store_responses ds [] uri)
  | inr (d, e) ↦ ground (arith, load-store_responses ds [] uri)
]

-- The headers that are configured, and over them those of the request.
abbrev pub copied : Request → ResponseData → Headers
copied r d = copy_headers r.header (copy_headers d.request.headers [])

-- What a client and the test are to see: the status, the headers, the body and the requests in the channel.
abbrev pub expected : Option ResponseData → Request → ℕ × Headers × Bytes × List RequestData
expected none r = (404, [], [], [])
expected (some d) r =
    if str_eq d.request.method r.method
    then (
      d.status,
      copied r d,
      body_of (str_eq r.method (codes "HEAD")) d.status (copied r d) d.request.body,
      record { uri = clean_uri r.request_uri; body = r.body; method = r.method; headers = r.header }
          ∷ [],
    )
    else (404, [], [], [])

abbrev pub Shows : Handled → ℕ × Headers × Bytes × List RequestData → Type 0
Shows h (status, headers, body, requests) =
    (w : Response) × (hl : HttpServer) × (h ≡ handled w hl)
    × (w.status ≡ some status)
    × (w.sent ≡ headers)
    × (w.body ≡ body)
    × (hl.requests ≡ requests)

body_of-nil : (head : Bool) (status : ℕ) (h : Headers) → body_of head status h [] ≡ []
unfolding body_of
body_of-nil head status h = ground arith

write_body-plain :
    (head : Bool) (b : Bytes) (h sn : Headers) (status : ℕ)
    → serve (bounded head) (write_body b) (plain h (some status) sn [], none)
      ≡ (plain h (some status) sn (body_of head status sn b), none)
unfolding write_body serve send send_header send_bounded body_of status_allows
write_body-plain head [] h sn status =
    ap (λ b. (plain h (some status) sn b, none)) (sym (body_of-nil head status sn))
write_body-plain head (x ∷ b) h sn status =
    elim (Bool-cases (body_allowed status && fits sn (x ∷ b))) [
      | inl e ↦ elim (Bool-cases head) [ inl f ↦ rw (e, f) refl | inr f ↦ rw (e, f) refl ]
      | inr e ↦ rw e refl
    ]

sent-room :
    (w : Response) (q : RequestData) (n : ℕ) (m : SyncMap ResponseData)
    → ltb 0 n ≡ true
    → sent w (some q) (record { response_map = m; channel_size = n; requests = [] })
      ≡ handled w (record { response_map = m; channel_size = n; requests = q ∷ [] })
unfolding sent
sent-room w q n m h =
    ap
      (λ b.
        if b
        then handled w (record { response_map = m; channel_size = n; requests = q ∷ [] })
        else waits w)
      h

-- The response is the one of the map, and the request is sent if there is one.
sent-Shows :
    (n : ℕ) (o : Option ResponseData) (r : Request) (m : SyncMap ResponseData)
    → ltb 0 n ≡ true
    → Shows
        (sent
          (serve (bounded (str_eq r.method (codes "HEAD"))) (respond r o) (fresh [], none)).0
          (recorded r o)
          (record { response_map = m; channel_size = n; requests = [] }))
        (expected o r)
unfolding sent respond recorded write_body serve send_header send
sent-Shows n none r m h = (_, _, refl, refl, refl, refl, refl)
sent-Shows n (some d) r m h = elim (Bool-cases (str_eq d.request.method r.method)) [
  | inl e ↦
      let head = str_eq r.method (codes "HEAD") in
      let hs = combined r d [] in
      let b = body_of head d.status hs d.request.body in
      let q : RequestData = record {
        uri = clean_uri r.request_uri;
        body = r.body;
        method = r.method;
        headers = r.header;
      } in
      let hl : HttpServer = record { response_map = m; channel_size = n; requests = q ∷ [] } in
      rw (e, respond, recorded)
        (
          plain hs (some d.status) hs b,
          hl,
          sent-room
                (serve (bounded head) (write_body d.request.body)
                  (plain hs (some d.status) hs [], none)).0
                q n m h
              ∙ ap (λ w. handled w.0 hl) (write_body-plain head d.request.body hs hs d.status),
          refl,
          refl,
          refl,
          refl,
        )
  | inr e ↦ rw (e, respond, recorded) (_, _, refl, refl, refl, refl, refl)
]

pub handle-new_http_server :
    (n : ℕ) (d : ResponseData) (ds : List ResponseData) (r : Request)
    → ltb 0 n ≡ true
    → (hl : HttpServer) × (new_http_server none n (d ∷ ds) ≡ ok hl)
      × Shows (handle hl r (fresh [])) (expected (last_for (d ∷ ds) (clean_uri r.request_uri)) r)
unfolding new_http_server handle
handle-new_http_server n d ds r h = (
  record { response_map = store_responses (d ∷ ds) []; channel_size = n; requests = [] },
  refl,
  rw (load-configured (d ∷ ds) (clean_uri r.request_uri)) (
      sent-Shows n (last_for (d ∷ ds) (clean_uri r.request_uri)) r (store_responses (d ∷ ds) []) h),
)

-- The URI of the response is not empty and has no bar at its front.
abbrev pub IsBare : ResponseData → Type 0
IsBare d = (c : ℕ) × (cs : GoString) × (d.request.uri ≡ c ∷ cs) × (has_prefix (c ∷ cs) bar ≡ false)

true-false : true ≡ false → ⊥
true-false h = cc

last_for-bare :
    (ds : List ResponseData) (uri : GoString)
    → has_prefix uri bar ≡ true
    → All IsBare ds
    → last_for ds uri ≡ none
unfolding last_for
last_for-bare [] uri h a = refl
last_for-bare (d ∷ ds) uri h ((c, cs, e, n), a) =
    let no : has_prefix (clean_uri d.request.uri) bar ≡ false =
      ap (λ x. has_prefix (clean_uri x) bar) e ∙ clean_uri-missed c cs n in
    elim (Bool-cases (str_eq (clean_uri d.request.uri) uri)) [
      | inl q ↦ absurd (
          true-false (
            sym h
            ∙ ap (λ x. has_prefix x bar) (sym ((str_eq_iff (clean_uri d.request.uri) uri).0 q))
            ∙ no))
      | inr q ↦ rw (last_for-bare ds uri h a, last_for) (rw q refl)
    ]

-- Responses whose URIs are not empty and have no bar at their front are never served: CleanURI puts the bar
-- at the end, so that every request, whose URI has one at its front, gets a 404 without a body, and the test
-- receives none.
pub handle-bare :
    (n : ℕ) (d : ResponseData) (ds : List ResponseData) (r : Request)
    → ltb 0 n ≡ true
    → has_prefix r.request_uri bar ≡ true
    → All IsBare (d ∷ ds)
    → (hl : HttpServer) × (new_http_server none n (d ∷ ds) ≡ ok hl)
      × Shows (handle hl r (fresh [])) (404, [], [], [])
handle-bare n d ds r h b a =
    let (hl, e, s) = handle-new_http_server n d ds r h in
    (
      hl,
      e,
      subst (λ o. Shows (handle hl r (fresh [])) (expected o r))
          (last_for-bare (d ∷ ds) (clean_uri r.request_uri) (clean_uri-kept r.request_uri b) a) s,
    )
