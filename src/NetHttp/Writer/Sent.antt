-- ===== src/NetHttp/Writer/Sent.antt =====
-- The status and the body after a call on the server's writer.
use gobol.Base.{
  ◌≡◌, ap, ◌∙◌, refl, inl, inr, ℕ, ◌+◌, Option, none, some, List, [], ◌∷◌, ◌++◌, length,
  length-append, arith, Option-cases,
}
use gobol.Base.Text.{GoString, Bytes}
use gobol.NetHttp.Header.{Headers}
use gobol.NetHttp.Writer.{Response, send, send_header, append_body, count}

append_body-status :
    (b : Bytes) (fs : List (Option GoString)) (w : Response)
    → (append_body b fs w).1.status ≡ w.status
unfolding append_body
append_body-status b [] w = refl
append_body-status b (none ∷ fs) w = refl
append_body-status b (some e ∷ fs) w = refl

pub send_header-status :
    (s : ℕ) (w : Response)
    → (send_header s w).status ≡ some (elim w.status [ none ↦ s | some t ↦ t ])
unfolding send_header
send_header-status s w = elim (Option-cases w.status) [ inl e ↦ rw e | inr (t, e) ↦ ground arith ]

append_body-size :
    (b : Bytes) (fs : List (Option GoString)) (w : Response)
    → length (append_body b fs w).1.body ≡ length w.body + count b (append_body b fs w).0
unfolding append_body count
append_body-size b [] w = length-append w.body b
append_body-size b (none ∷ fs) w = length-append w.body b
append_body-size b (some e ∷ fs) w = omega arith

pub send_header-body : (s : ℕ) (w : Response) → (send_header s w).body ≡ w.body
unfolding send_header
send_header-body s w = elim (Option-cases w.status) [ inl e ↦ rw e | inr (t, e) ↦ rw e ]

pub send-status :
    (b : Bytes) (w : Response)
    → (send b w).1.status ≡ some (elim w.status [ none ↦ 200 | some t ↦ t ])
unfolding send
send-status b w = append_body-status b w.faults (send_header 200 w) ∙ send_header-status 200 w

pub send-size :
    (b : Bytes) (w : Response) → length (send b w).1.body ≡ length w.body + count b (send b w).0
unfolding send
send-size b w =
    append_body-size b w.faults (send_header 200 w)
    ∙ ap (λ x. length x + count b (append_body b w.faults (send_header 200 w)).0)
        (send_header-body 200 w)

-- A response whose writes do not fail.
abbrev pub plain : Headers → Option ℕ → Headers → Bytes → Response
plain h st sn bd = record { header = h; status = st; sent = sn; body = bd; faults = [] }

pub send-plain_sent :
    (b : Bytes) (h sn : Headers) (s : ℕ) (bd : Bytes)
    → send b (plain h (some s) sn bd) ≡ (none, plain h (some s) sn (bd ++ b))
unfolding send send_header append_body
send-plain_sent b h sn s bd = refl

pub send-plain_first :
    (b : Bytes) (h sn : Headers) (bd : Bytes)
    → send b (plain h none sn bd) ≡ (none, plain h (some 200) h (bd ++ b))
unfolding send send_header append_body
send-plain_first b h sn bd = refl
