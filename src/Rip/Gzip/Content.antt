-- ===== src/Rip/Gzip/Content.antt =====
-- The content that a response has behind the gzip middleware, and its headers.
use mathlib.Core.Path.{subst}
use gobol.Base.{
  ◌≡◌, ◌≢◌, ap, sym, ◌∙◌, refl, ℕ, true, false, Option, none, some, List, [], ◌∷◌, ◌++◌,
  append_assoc, append-nil,
}
use gobol.Base.Text.{Bytes, codes, str_eq, contains}
use gobol.NetHttp.Header.{Headers, get, del}
use gobol.NetHttp.Writer.{Response, server, send_header}
use gobol.NetHttp.Writer.Sent.{plain, send-plain_sent, send-plain_first}
use gobol.NetHttp.Handler.{
  Request, Handler, Context, done, with_header, set_header, write, write_header, add_stats,
  add_stats_map, serve, serve-write,
}
use gobol.Rip.Gzip.{
  Compressor, GzipResponseWriter, write_all, gzip_write, compressing, gzip_close, unsized, encoded,
  serve_compressed, serve_gzip, content_length, content_encoding, accept_encoding, encoding_gzip,
}

abbrev pub concat : List Bytes → Bytes
concat [] = []
concat (b ∷ bs) = b ++ concat bs

concat-snoc : (bs : List Bytes) (b : Bytes) → concat (bs ++ b ∷ []) ≡ concat bs ++ b
concat-snoc [] b = rw append-nil
concat-snoc (x ∷ bs) b = simp (concat-snoc bs b, append_assoc)

write_all-sent :
    (bs : List Bytes) (h sn : Headers) (s : ℕ) (bd : Bytes)
    → write_all server bs (plain h (some s) sn bd) ≡ (none, plain h (some s) sn (bd ++ concat bs))
unfolding write_all
write_all-sent [] h sn s bd = rw append-nil
write_all-sent (b ∷ bs) h sn s bd =
    rw (send-plain_sent b h sn s bd) (write_all-sent bs h sn s (bd ++ b) ∙ rw append_assoc)

write_all-first :
    (bs : List Bytes) (h sn : Headers) (bd : Bytes)
    → bs ≢ []
    → write_all server bs (plain h none sn bd) ≡ (none, plain h (some 200) h (bd ++ concat bs))
unfolding write_all
write_all-first [] h sn bd n = absurd (n refl)
write_all-first (b ∷ bs) h sn bd n =
    rw (send-plain_first b h sn bd) (write_all-sent bs h h 200 (bd ++ b) ∙ rw append_assoc)

-- What the middleware's response is to the one of the same handler without compression.
abbrev pub Carries : (Bytes → Option Bytes) → Response → Response → Type 0
Carries ungzip w p = (ungzip w.body ≡ some p.body) × (w.status ≡ p.status) × (w.sent ≡ p.sent)

none-some : {A : Type 0} {a : A} → Option.none ≡ some a → ⊥
none-some h = cc

module _ (z : Compressor) where
  -- A Write, with what the compressor has put out.
  abbrev pub feed_one : Bytes → z.State × Bytes → z.State × Bytes
  feed_one b (s, out) = ((z.push b s).0, out ++ concat (z.push b s).1)

  abbrev pub feed : List Bytes → z.State × Bytes → z.State × Bytes
  feed [] x = x
  feed (b ∷ bs) x = feed bs (feed_one b x)

  -- What the code relies on: the whole output is decompressed to the whole input, and the first Write puts
  -- out the header of the format.
  pub record IsGzip (ungzip : Bytes → Option Bytes) : Type 0 where
    pub inverse :
        (bs : List Bytes)
        → ungzip ((feed bs (z.start, [])).1 ++ concat (z.finish (feed bs (z.start, [])).0))
          ≡ some (concat bs)
    pub first : (b : Bytes) → (z.push b z.start).1 ≢ []

  feed-snoc :
      (bs : List Bytes) (b : Bytes) (x : z.State × Bytes)
      → feed (bs ++ b ∷ []) x ≡ feed_one b (feed bs x)
  feed-snoc [] b x = refl
  feed-snoc (c ∷ bs) b x = feed-snoc bs b (feed_one c x)

  -- The compressor after some writes, over a response with the output so far.
  abbrev after : List Bytes → Headers → Option ℕ → Headers → GzipResponseWriter z.State Response
  after bs h st sn =
      let x = feed bs (z.start, []) in
      record { inner = plain h st sn x.1; state = x.0; failed = none }

  -- The response through the compressor and the one without it, after the same writes.
  abbrev Follows : GzipResponseWriter z.State Response × Context → Response × Context → Type 0
  Follows g p =
      (bs : List Bytes) × (h : Headers) × (st : Option ℕ) × (sn : Headers) × (g
        ≡ (after bs h st sn, g.1))
      × (p ≡ (plain h st sn (concat bs), g.1))

  Follows-same :
      {g g' : GzipResponseWriter z.State Response × Context} {p p' : Response × Context}
      → g ≡ g'
      → p ≡ p'
      → Follows g' p'
      → Follows g p
  Follows-same {g} {g'} {p} {p'} e d f =
      subst (λ x. Follows x p) (sym e) (subst (λ x. Follows g' x) (sym d) f)

  gzip_write-after :
      (b : Bytes) (bs : List Bytes) (h sn : Headers) (s : ℕ)
      → gzip_write z server b (after bs h (some s) sn) ≡ (none, after (bs ++ b ∷ []) h (some s) sn)
  unfolding gzip_write
  gzip_write-after b bs h sn s =
      let x = feed bs (z.start, []) in
      rw (write_all-sent (z.push b x.0).1 h sn s x.1, feed-snoc bs b (z.start, []))

  gzip_write-first :
      (b : Bytes) (h sn : Headers)
      → (z.push b z.start).1 ≢ []
      → gzip_write z server b (after [] h none sn) ≡ (none, after (b ∷ []) h (some 200) h)
  unfolding gzip_write
  gzip_write-first b h sn n = rw (write_all-first (z.push b z.start).1 h sn [] n)

  serve-Follows_sent :
      (k : Handler) (bs : List Bytes) (h sn : Headers) (s : ℕ) (c : Context)
      → Follows
          (serve (compressing z server) k (after bs h (some s) sn, c))
          (serve server k (plain h (some s) sn (concat bs), c))
  unfolding serve send_header
  serve-Follows_sent done bs h sn s c = (bs, h, some s, sn, refl, refl)
  serve-Follows_sent (with_header k) bs h sn s c = serve-Follows_sent (k h) bs h sn s c
  serve-Follows_sent (set_header x next) bs h sn s c = serve-Follows_sent next bs x sn s c
  serve-Follows_sent (write b k) bs h sn s c =
      Follows-same
        (serve-write (compressing z server) b k (after bs h (some s) sn) c
          (gzip_write-after b bs h sn s))
        (serve-write server b k (plain h (some s) sn (concat bs)) c (
          send-plain_sent b h sn s (concat bs)
          ∙ ap (λ x. (none, plain h (some s) sn x)) (sym (concat-snoc bs b))))
        (serve-Follows_sent (k none) (bs ++ b ∷ []) h sn s c)
  serve-Follows_sent (write_header n next) bs h sn s c = serve-Follows_sent next bs h sn s c
  serve-Follows_sent (add_stats tags next) bs h sn s c =
      serve-Follows_sent next bs h sn s (add_stats_map tags c)

  serve-Follows :
      (k : Handler) (h sn : Headers) (c : Context)
      → ((b : Bytes) → (z.push b z.start).1 ≢ [])
      → Follows
          (serve (compressing z server) k (after [] h none sn, c))
          (serve server k (plain h none sn [], c))
  unfolding serve send_header
  serve-Follows done h sn c f = ([], h, none, sn, refl, refl)
  serve-Follows (with_header k) h sn c f = serve-Follows (k h) h sn c f
  serve-Follows (set_header x next) h sn c f = serve-Follows next x sn c f
  serve-Follows (write b k) h sn c f =
      Follows-same
        (serve-write (compressing z server) b k (after [] h none sn) c
          (gzip_write-first b h sn (f b)))
        (serve-write server b k (plain h none sn []) c (
          send-plain_first b h sn []
          ∙ ap (λ x. (none, plain h (some 200) h x)) (sym (append-nil b))))
        (serve-Follows_sent (k none) (b ∷ []) h h 200 c)
  serve-Follows (write_header n next) h sn c f = serve-Follows_sent next [] h h n c
  serve-Follows (add_stats tags next) h sn c f = serve-Follows next h sn (add_stats_map tags c) f

  close-after :
      {ungzip : Bytes → Option Bytes} (law : IsGzip ungzip) (bs : List Bytes) (h sn : Headers)
      (s : ℕ)
      → Carries ungzip
          (gzip_close z server (unsized z server (after bs h (some s) sn)))
          (plain h (some s) sn (concat bs))
  unfolding gzip_close
  close-after {ungzip} law bs h sn s =
      let x = feed bs (z.start, []) in
      subst (λ w. Carries ungzip w (plain h (some s) sn (concat bs)))
        (sym (ap (λ r. r.1) (write_all-sent (z.finish x.0) (del content_length h) sn s x.1)))
        (law.inverse bs, refl, refl)

  Follows-Carries :
      {ungzip : Bytes → Option Bytes} (law : IsGzip ungzip)
      (g : GzipResponseWriter z.State Response × Context) (p : Response × Context) {s : ℕ}
      → Follows g p
      → p.0.status ≡ some s
      → Carries ungzip (gzip_close z server (unsized z server g.0)) p.0 × (g.1 ≡ p.1)
  Follows-Carries law g p (bs, h, none, sn, eg, ep) e =
      absurd (none-some (sym (ap (λ x. x.0.status) ep) ∙ e))
  Follows-Carries {ungzip} law g p (bs, h, some s, sn, eg, ep) e = (
    subst (λ x. Carries ungzip (gzip_close z server (unsized z server g.0)) x)
        (sym (ap (λ x. x.0) ep))
        (subst
          (λ x.
            Carries ungzip (gzip_close z server (unsized z server x))
              (plain h (some s) sn (concat bs)))
          (sym (ap (λ x. x.0) eg)) (close-after law bs h sn s)),
    sym (ap (λ x. x.1) ep),
  )

  -- For a request that accepts gzip and is no web socket handshake, on a fresh response without
  -- Content-Encoding whose writes do not fail, and a next handler that sends a response: the body is
  -- decompressed to the body that the handler sends without compression, with the same status and the same
  -- headers, those of a handler that finds Content-Encoding and Vary set, and the same tags. So also a
  -- Content-Length that the handler sets is sent, which is that of the content before compression.
  pub serve_gzip-content :
      {ungzip : Bytes → Option Bytes} (law : IsGzip ungzip) (next : Request → Handler) (r : Request)
      (h : Headers) (c : Context) {s : ℕ}
      → contains (get r.header accept_encoding) encoding_gzip ≡ true
      → get r.header (codes "Sec-WebSocket-Key") ≡ []
      → str_eq (get h content_encoding) encoding_gzip ≡ false
      → (serve server (next r) (encoded server (plain h none [] []), c)).0.status ≡ some s
      → Carries ungzip
          (serve_gzip z server next r (plain h none [] [], c)).0
          (serve server (next r) (encoded server (plain h none [] []), c)).0
        × ((serve_gzip z server next r (plain h none [] [], c)).1
            ≡ (serve server (next r) (encoded server (plain h none [] []), c)).1)
  unfolding serve_gzip serve_compressed
  serve_gzip-content law next r h c a w e d =
      let h' = (encoded server (plain h none [] [])).header in
      rw (a, w, e)
        (Follows-Carries law (serve (compressing z server) (next r) (after [] h' none [], c))
          (serve server (next r) (plain h' none [] [], c))
          (serve-Follows (next r) h' [] c law.first) d)
