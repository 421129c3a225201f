-- ===== src/Rip/Gzip/Through.antt =====
-- The gzip middleware over writers that stand for each other.
use gobol.Base.{
  ◌≡◌, ap, ◌∙◌, refl, Bool, true, false, Option, none, some, List, [], ◌∷◌, if◌then◌else◌,
}
use gobol.Base.Text.{GoString, Bytes, codes, str_eq}
use gobol.NetHttp.Header.{get, set, del}
use gobol.NetHttp.Writer.{ResponseWriter}
use gobol.NetHttp.Handler.{Request, Handler, Context, serve}
use gobol.NetHttp.Morphism.{IsMorphism, serve-IsMorphism}
use gobol.Rip.Gzip.{
  Compressor, GzipResponseWriter, write_next, write_all, gzip_write, compressing, gzip_close,
  encoded, unsized, serve_compressed, serve_gzip, accept_encoding, content_encoding, content_length,
  encoding_gzip,
}

module _ {W V : Type 0} {o : ResponseWriter W} {p : ResponseWriter V} {f : W → V}
    (m : IsMorphism o p f) where
  -- The map on the second component.
  abbrev over : Option GoString × W → Option GoString × V
  over r = (r.0, f r.1)

  write_next-over :
      (k : W → Option GoString × W) (l : V → Option GoString × V) (r : Option GoString × W)
      → ((w : W) → over (k w) ≡ l (f w))
      → over (write_next o k r) ≡ write_next p l (over r)
  unfolding write_next
  write_next-over k l (none, w) h = h w
  write_next-over k l (some e, w) h = refl

  write_all-over : (bs : List Bytes) (w : W) → over (write_all o bs w) ≡ write_all p bs (f w)
  unfolding write_all
  write_all-over [] w = refl
  write_all-over (b ∷ bs) w =
      write_next-over (write_all o bs) (write_all p bs) (o.write b w) (write_all-over bs)
      ∙ ap (write_next p (write_all p bs)) (m.same_write b w)

  module _ (z : Compressor) where
    abbrev lifted : GzipResponseWriter z.State W → GzipResponseWriter z.State V
    lifted g = record { inner = f g.inner; state = g.state; failed = g.failed }

    gzip_write-over :
        (b : Bytes) (w : W) (s : z.State) (e : Option GoString)
        → (
          (gzip_write z o b (record { inner = w; state = s; failed = e })).0,
          lifted (gzip_write z o b (record { inner = w; state = s; failed = e })).1,
        )
          ≡ gzip_write z p b (record { inner = f w; state = s; failed = e })
    unfolding gzip_write
    gzip_write-over b w s none =
        ap (λ r. (r.0, record { inner = r.1; state = (z.push b s).0; failed = r.0 }))
          (write_all-over (z.push b s).1 w)
    gzip_write-over b w s (some e) = refl

    compressing-IsMorphism : IsMorphism (compressing z o) (compressing z p) lifted
    compressing-IsMorphism = record {
      same_header = λ g. m.same_header g.inner;
      same_set = λ h g.
          ap (λ v. record { inner = v; state = g.state; failed = g.failed }) (m.same_set h g.inner);
      same_write = λ b g. gzip_write-over b g.inner g.state g.failed;
      same_status = λ s g.
          ap (λ v. record { inner = v; state = g.state; failed = g.failed })
            (m.same_status s g.inner);
    }

    gzip_close-over :
        (w : W) (s : z.State) (e : Option GoString)
        → f (gzip_close z o (record { inner = w; state = s; failed = e }))
          ≡ gzip_close z p (record { inner = f w; state = s; failed = e })
    unfolding gzip_close
    gzip_close-over w s none = ap (λ r. r.1) (write_all-over (z.finish s) w)
    gzip_close-over w s (some e) = refl

    -- The map on a state with its context.
    abbrev both : W × Context → V × Context
    both s = (f s.0, s.1)

    encoded-over : (w : W) → f (encoded o w) ≡ encoded p (f w)
    encoded-over w =
        m.same_set _ w
        ∙ ap
            (λ h.
              p.set_header
                (set (codes "Vary") accept_encoding (set content_encoding encoding_gzip h)) (f w))
            (m.same_header w)

    unsized-over :
        (g : GzipResponseWriter z.State W) → lifted (unsized z o g) ≡ unsized z p (lifted g)
    unsized-over g =
        ap (λ v. record { inner = v; state = g.state; failed = g.failed })
          (m.same_set (del content_length (o.header g.inner)) g.inner
            ∙ ap (λ h. p.set_header (del content_length h) (f g.inner)) (m.same_header g.inner))

    closed-over :
        (g : GzipResponseWriter z.State W)
        → f (gzip_close z o (unsized z o g)) ≡ gzip_close z p (unsized z p (lifted g))
    closed-over g =
        gzip_close-over (unsized z o g).inner g.state g.failed
        ∙ ap (gzip_close z p) (unsized-over g)

    serve_compressed-over :
        (k : Handler) (w : W) (c : Context)
        → both (serve_compressed z o k (w, c)) ≡ serve_compressed z p k (f w, c)
    unfolding serve_compressed
    serve_compressed-over k w c =
        let start : GzipResponseWriter z.State W = record {
          inner = encoded o w;
          state = z.start;
          failed = none;
        } in
        let x = serve (compressing z o) k (start, c) in
        ap (λ v. (v, x.1)) (closed-over x.0)
        ∙ ap (λ r. (gzip_close z p (unsized z p r.0), r.1))
            (serve-IsMorphism compressing-IsMorphism k start c
              ∙ ap
                  (λ v.
                    serve (compressing z p) k
                      (record { inner = v; state = z.start; failed = none }, c))
                  (encoded-over w))

    if-over :
        (b : Bool) (x y : W × Context) (u v : V × Context)
        → both x ≡ u
        → both y ≡ v
        → both (if b then x else y) ≡ (if b then u else v)
    if-over true x y u v h k = h
    if-over false x y u v h k = k

    -- The gzip middleware on a writer does to the writer that it stands for what it does there.
    pub serve_gzip-over :
        (next : Request → Handler) (r : Request) (w : W) (c : Context)
        → both (serve_gzip z o next r (w, c)) ≡ serve_gzip z p next r (f w, c)
    unfolding serve_gzip
    serve_gzip-over next r w c =
        let plain = serve-IsMorphism m (next r) w c in
        if-over _ _ _ _ _ plain (
          if-over _ _ _ _ _ plain (
            ap
              (λ h. both (
                if str_eq (get h content_encoding) encoding_gzip
                then serve o (next r) (w, c)
                else serve_compressed z o (next r) (w, c)))
              (m.same_header w)
            ∙ if-over _ _ _ _ _ plain (serve_compressed-over (next r) w c)))
