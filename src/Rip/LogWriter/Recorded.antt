-- ===== src/Rip/LogWriter/Recorded.antt =====
-- What LogResponseWriter records of a response, and that it leaves the response as it is.
use gobol.Base.{
  ◌≡◌, ap, sym, ◌∙◌, refl, ℕ, ◌+◌, ◌==◌, Bool, true, false, Option, none, some, List, length,
  if◌then◌else◌, arith,
}
use gobol.Base.Text.{GoString}
use gobol.NetHttp.Header.{Headers}
use gobol.NetHttp.Writer.{ResponseWriter, Response, server, fresh, send, count}
use gobol.NetHttp.Writer.Sent.{send-status, send-size, send_header-status, send_header-body}
use gobol.NetHttp.Handler.{
  Handler, Context, done, with_header, set_header, write, write_header, add_stats, add_stats_map,
  serve,
}
use gobol.NetHttp.Morphism.{IsMorphism}
use gobol.Rip.LogWriter.{LogResponseWriter, logging, logged, log_write}

-- A LogResponseWriter stands for the writer below it, whatever that is.
pub logging-IsMorphism :
    {W : Type 0} (o : ResponseWriter W) → IsMorphism (logging o) o (λ l. l.inner)
unfolding log_write
logging-IsMorphism o = record {
  same_header = λ l. refl;
  same_set = λ h l. refl;
  same_write = λ b l. refl;
  same_status = λ n l. refl;
}

-- The handler calls WriteHeader at most once, before it writes, and with a status other than 0; `sent` says
-- whether it may have sent one.
abbrev pub SendsOnce : Bool → Handler → Type 0
SendsOnce sent done = Unit
SendsOnce sent (with_header k) = (h : Headers) → SendsOnce sent (k h)
SendsOnce sent (set_header h next) = SendsOnce sent next
SendsOnce sent (write b k) = (e : Option GoString) → SendsOnce true (k e)
SendsOnce sent (write_header s next) = (sent ≡ false) × ((s == 0) ≡ false) × SendsOnce true next
SendsOnce sent (add_stats tags next) = SendsOnce sent next

-- The status that was sent, and 0 if none was.
abbrev pub sent_status : Option ℕ → ℕ
sent_status none = 0
sent_status (some s) = s

-- What holds between two calls: the status is recorded, and none has been sent unless `sent` says so.
IsRecorded : Bool → Option ℕ → ℕ → Type 0
IsRecorded true none n = ⊥
IsRecorded true (some s) n = (n ≡ s) × ((s == 0) ≡ false)
IsRecorded false none n = n ≡ 0
IsRecorded false (some s) n = ⊥

IsRecorded-sent : (b : Bool) (o : Option ℕ) (n : ℕ) → IsRecorded b o n → n ≡ sent_status o
unfolding IsRecorded
IsRecorded-sent true none n h = absurd h
IsRecorded-sent true (some s) n h = h.0
IsRecorded-sent false none n h = h
IsRecorded-sent false (some s) n h = absurd h

write-IsRecorded :
    (b : Bool) (o : Option ℕ) (n : ℕ)
    → IsRecorded b o n
    → IsRecorded true (some (elim o [ none ↦ 200 | some t ↦ t ])) (if n == 0 then 200 else n)
unfolding IsRecorded
write-IsRecorded true none n h = absurd h
write-IsRecorded true (some s) n h = ground arith
write-IsRecorded false none n h = ground arith
write-IsRecorded false (some s) n h = absurd h

write_header-IsRecorded :
    (o : Option ℕ) (n s : ℕ)
    → (s == 0) ≡ false
    → IsRecorded false o n
    → IsRecorded true (some (elim o [ none ↦ s | some t ↦ t ])) s
unfolding IsRecorded
write_header-IsRecorded none n s z h = (refl, z)
write_header-IsRecorded (some t) n s z h = absurd h

serve-IsRecorded :
    (sent : Bool) (k : Handler) (l : LogResponseWriter Response) (c : Context)
    → SendsOnce sent k
    → IsRecorded sent l.inner.status l.status
    → (serve (logging server) k (l, c)).0.status
      ≡ sent_status (serve (logging server) k (l, c)).0.inner.status
unfolding serve log_write
serve-IsRecorded sent done l c once h = IsRecorded-sent sent l.inner.status l.status h
serve-IsRecorded sent (with_header k) l c once h =
    serve-IsRecorded sent (k l.inner.header) l c (once l.inner.header) h
serve-IsRecorded sent (set_header x next) l c once h =
    serve-IsRecorded sent next ((logging server).set_header x l) c once h
serve-IsRecorded sent (write b k) l c once h =
    let e = (send b l.inner).0 in
    serve-IsRecorded true (k e) (log_write server b l).1 c (once e)
      (rw (send-status b l.inner) (write-IsRecorded sent l.inner.status l.status h))
serve-IsRecorded true (write_header s next) l c (q, z, once) h = absurd cc
serve-IsRecorded false (write_header s next) l c (q, z, once) h =
    serve-IsRecorded true next ((logging server).write_header s l) c once
      (rw (send_header-status s l.inner) (write_header-IsRecorded l.inner.status l.status s z h))
serve-IsRecorded sent (add_stats tags next) l c once h =
    serve-IsRecorded sent next l (add_stats_map tags c) once h

serve-size :
    (k : Handler) (l : LogResponseWriter Response) (c : Context)
    → l.size ≡ length l.inner.body
    → (serve (logging server) k (l, c)).0.size
      ≡ length (serve (logging server) k (l, c)).0.inner.body
unfolding serve log_write
serve-size done l c h = h
serve-size (with_header k) l c h = serve-size (k l.inner.header) l c h
serve-size (set_header x next) l c h = serve-size next ((logging server).set_header x l) c h
serve-size (write b k) l c h =
    serve-size (k (send b l.inner).0) (log_write server b l).1 c
      (ap (λ n. n + count b (send b l.inner).0) h ∙ sym (send-size b l.inner))
serve-size (write_header s next) l c h =
    serve-size next ((logging server).write_header s l) c
      (h ∙ ap length (sym (send_header-body s l.inner)))
serve-size (add_stats tags next) l c h = serve-size next l (add_stats_map tags c) h

-- For a handler that calls WriteHeader at most once, before its writes and with a status other than 0,
-- the middleware records the status that was sent, and 0 if none was, whatever writes fail; its size is
-- the number of bytes of the body.
pub serve-records :
    (k : Handler) (faults : List (Option GoString)) (c : Context)
    → SendsOnce false k
    → ((serve (logging server) k (logged (fresh faults), c)).0.status
        ≡ sent_status (serve (logging server) k (logged (fresh faults), c)).0.inner.status)
      × ((serve (logging server) k (logged (fresh faults), c)).0.size
          ≡ length (serve (logging server) k (logged (fresh faults), c)).0.inner.body)
unfolding IsRecorded
serve-records k faults c once = (
  serve-IsRecorded false k (logged (fresh faults)) c once refl,
  serve-size k (logged (fresh faults)) c refl,
)
