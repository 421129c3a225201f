-- ===== src/Rip/Respond/Sent.antt =====
-- The status that the responses of rip send.
use gobol.Base.{
  ◌≡◌, ap, ◌∙◌, refl, inl, inr, ℕ, Bool, Option, none, some, List, Bool-cases, ltb, ◌&&◌,
}
use gobol.Base.Text.{GoString, Bytes}
use gobol.NetHttp.Writer.{Response, server, fresh, send, send_header}
use gobol.NetHttp.Writer.Sent.{send-status, send_header-status}
use gobol.NetHttp.Handler.{
  Handler, Context, done, with_header, set_header, write, write_header, add_stats, add_stats_map,
  serve,
}
use gobol.Rip.Respond.{
  CustomError, ErrorJson, text, failed, success_json, write_payload, success, on_encoded,
  write_error, answer, fail_with, fail,
}

-- The status that is sent stays, whatever the handler still does.
pub serve-status :
    (k : Handler) (w : Response) (c : Context) {s : ℕ}
    → w.status ≡ some s
    → (serve server k (w, c)).0.status ≡ some s
unfolding serve
serve-status done w c h = h
serve-status (with_header k) w c h = serve-status (k w.header) w c h
serve-status (set_header x next) w c h = serve-status next (server.set_header x w) c h
serve-status (write b k) w c h =
    serve-status (k (send b w).0) (send b w).1 c
      (send-status b w ∙ ap (λ o. some (elim o [ none ↦ 200 | some t ↦ t ])) h)
serve-status (write_header n next) w c h =
    serve-status next (send_header n w) c
      (send_header-status n w ∙ ap (λ o. some (elim o [ none ↦ n | some t ↦ t ])) h)
serve-status (add_stats tags next) w c h = serve-status next w (add_stats_map tags c) h

-- The status that a handler has sent to a client that is served from the start.
abbrev pub sent : List (Option GoString) → Handler → Option ℕ
sent faults k = (serve server k (fresh faults, none)).0.status

sent-header :
    (faults : List (Option GoString)) (code : ℕ) (next : Handler)
    → sent faults (write_header code next) ≡ some code
unfolding serve send_header
sent-header faults code next = serve-status next (send_header code (fresh faults)) none refl

sent-answer :
    (encode : ErrorJson → Bytes) (faults : List (Option GoString)) (code : ℕ) (silent : Bool)
    (ej : ErrorJson)
    → sent faults (answer encode code silent ej) ≡ some code
unfolding answer write_error
sent-answer encode faults code silent ej = elim (Bool-cases (ltb code 500 && silent)) [
  | inl e ↦ rw e (sent-header faults code done)
  | inr e ↦ rw e (sent-header faults code (write (encode ej) on_encoded))
]

sent-fail :
    (encode : ErrorJson → Bytes) (faults : List (Option GoString)) (e : CustomError)
    (o : Option GoString)
    → sent faults (fail_with encode e o) ≡ some e.http_code
unfolding fail_with
sent-fail encode faults e none = sent-answer encode faults e.http_code _ _
sent-fail encode faults e (some m) = sent-answer encode faults e.http_code _ _

sent-success_json :
    (faults : List (Option GoString)) (code : ℕ) (b : Bytes)
    → sent faults (success_json code (text b)) ≡ some code
unfolding success_json serve send_header
sent-success_json faults code b =
    serve-status (write b (λ f. done)) (send_header code (record (fresh faults) { header = _ }))
      none refl

-- Whichever writes fail, Fail sends the status of its error, also where that error panics, Success and
-- SuccessJSON send the status that they are given, and SuccessJSON sends 500 for a payload that has no
-- JSON.
pub responses-status :
    (encode : ErrorJson → Bytes) (faults : List (Option GoString)) (e : CustomError) (code : ℕ)
    (payload : Option Bytes) (b : Bytes) (problem : GoString)
    → (sent faults (fail encode e) ≡ some e.http_code)
      × (sent faults (success code payload) ≡ some code)
      × (sent faults (success_json code (text b)) ≡ some code)
      × (sent faults (success_json code (failed problem)) ≡ some 500)
unfolding fail success success_json
responses-status encode faults e code payload b problem = (
  sent-fail encode faults e e.error,
  sent-header faults code (write_payload payload),
  sent-success_json faults code b,
  sent-header faults 500 (write problem (λ f. done)),
)
