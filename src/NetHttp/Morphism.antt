-- ===== src/NetHttp/Morphism.antt =====
-- Response writers that stand for each other: what a handler does to one, it does to the other.
use gobol.Base.{◌≡◌, ap, ◌∙◌, refl, ℕ}
use gobol.Base.Text.{Bytes}
use gobol.NetHttp.Header.{Headers}
use gobol.NetHttp.Writer.{ResponseWriter}
use gobol.NetHttp.Handler.{
  Handler, Context, done, with_header, set_header, write, write_header, add_stats, add_stats_map,
  serve,
}

-- A map of states that every call of a writer commutes with.
pub record IsMorphism {W V : Type 0} (o : ResponseWriter W) (p : ResponseWriter V) (f : W → V)
    : Type 0 where
  pub same_header : (w : W) → o.header w ≡ p.header (f w)
  pub same_set : (h : Headers) (w : W) → f (o.set_header h w) ≡ p.set_header h (f w)
  pub same_write : (b : Bytes) (w : W) → ((o.write b w).0, f (o.write b w).1) ≡ p.write b (f w)
  pub same_status : (s : ℕ) (w : W) → f (o.write_header s w) ≡ p.write_header s (f w)

pub serve-IsMorphism :
    {W V : Type 0} {o : ResponseWriter W} {p : ResponseWriter V} {f : W → V} (m : IsMorphism o p f)
    (k : Handler) (w : W) (c : Context)
    → (f (serve o k (w, c)).0, (serve o k (w, c)).1) ≡ serve p k (f w, c)
unfolding serve
serve-IsMorphism m done w c = refl
serve-IsMorphism {o = o} {p = p} {f = f} m (with_header k) w c =
    serve-IsMorphism m (k (o.header w)) w c ∙ ap (λ h. serve p (k h) (f w, c)) (m.same_header w)
serve-IsMorphism {o = o} {p = p} m (set_header h next) w c =
    serve-IsMorphism m next (o.set_header h w) c ∙ ap (λ v. serve p next (v, c)) (m.same_set h w)
serve-IsMorphism {o = o} {p = p} m (write b k) w c =
    serve-IsMorphism m (k (o.write b w).0) (o.write b w).1 c
    ∙ ap (λ r. serve p (k r.0) (r.1, c)) (m.same_write b w)
serve-IsMorphism {o = o} {p = p} m (write_header s next) w c =
    serve-IsMorphism m next (o.write_header s w) c
    ∙ ap (λ v. serve p next (v, c)) (m.same_status s w)
serve-IsMorphism m (add_stats tags next) w c = serve-IsMorphism m next w (add_stats_map tags c)
