-- ===== src/Tester/Uri.antt =====
-- CleanURI of tester/httpserver/httpserver.go.
use gobol.Base.{
  ◌≡◌, ap, sym, ◌∙◌, refl, inl, inr, ℕ, Bool, true, false, [], ◌∷◌, ◌++◌, append-nil, ◌==◌,
  if◌then◌else◌, arith, Bool-cases,
}
use gobol.Base.Text.{GoString, has_prefix}

-- multipleBarRegexp.ReplaceAllString(name, "/"): a bar after a bar is dropped.
unfoldable pub collapse : Bool → GoString → GoString
collapse after_bar [] = []
collapse after_bar (c ∷ cs) =
    let rest = collapse (c == b'/') cs in
    if after_bar then (if c == b'/' then rest else c ∷ rest) else c ∷ rest

abbrev pub bar : GoString
bar = b'/' ∷ []

unfoldable pub clean_uri : GoString → GoString
unfolding collapse
clean_uri name = if has_prefix name bar then collapse false name else collapse false (name ++ bar)

-- What was collapsed before may be collapsed again.
collapse-collapse :
    (b : Bool) (s t : GoString) → collapse b (collapse b s ++ t) ≡ collapse b (s ++ t)
unfolding collapse
collapse-collapse b [] t = refl
collapse-collapse b (c ∷ s) t =
    ground (arith, collapse-collapse true s t, collapse-collapse false s t)

collapse-bars : (b : Bool) (s : GoString) → collapse b ((s ++ bar) ++ bar) ≡ collapse b (s ++ bar)
unfolding collapse
collapse-bars b [] = ground arith
collapse-bars b (c ∷ s) = ground (arith, collapse-bars true s, collapse-bars false s)

-- A bar at the front stays there, and none comes there.
collapse-prefix : (s : GoString) → has_prefix (collapse false s) bar ≡ has_prefix s bar
unfolding collapse has_prefix
collapse-prefix [] = refl
collapse-prefix (c ∷ s) = refl

clean_uri-prefixed : (s : GoString) → has_prefix s bar ≡ true → clean_uri s ≡ collapse false s
unfolding clean_uri
clean_uri-prefixed s h = ap (λ b. if b then collapse false s else collapse false (s ++ bar)) h

clean_uri-bare : (s : GoString) → has_prefix s bar ≡ false → clean_uri s ≡ collapse false (s ++ bar)
unfolding clean_uri
clean_uri-bare s h = ap (λ b. if b then collapse false s else collapse false (s ++ bar)) h

-- A URI with a bar at its front is cleaned to one with a bar at its front.
pub clean_uri-kept : (s : GoString) → has_prefix s bar ≡ true → has_prefix (clean_uri s) bar ≡ true
clean_uri-kept s h = ap (λ x. has_prefix x bar) (clean_uri-prefixed s h) ∙ collapse-prefix s ∙ h

-- One without, unless it is empty, to one without.
pub clean_uri-missed :
    (c : ℕ) (s : GoString)
    → has_prefix (c ∷ s) bar ≡ false
    → has_prefix (clean_uri (c ∷ s)) bar ≡ false
unfolding has_prefix
clean_uri-missed c s h =
    ap (λ x. has_prefix x bar) (clean_uri-bare (c ∷ s) h) ∙ collapse-prefix (c ∷ s ++ bar) ∙ h

-- CleanURI has no effect on a URI that it gave.
pub clean_uri-clean_uri : (s : GoString) → clean_uri (clean_uri s) ≡ clean_uri s
unfolding clean_uri collapse has_prefix
clean_uri-clean_uri [] = refl
clean_uri-clean_uri (c ∷ s) = elim (Bool-cases (has_prefix (c ∷ s) bar)) [
  | inl e ↦
      let d = clean_uri (c ∷ s) in
      clean_uri-prefixed d (clean_uri-kept (c ∷ s) e)
      ∙ ap (collapse false)
          (clean_uri-prefixed (c ∷ s) e ∙ sym (append-nil (collapse false (c ∷ s))))
      ∙ collapse-collapse false (c ∷ s) []
      ∙ ap (collapse false) (append-nil (c ∷ s))
      ∙ sym (clean_uri-prefixed (c ∷ s) e)
  | inr e ↦
      let d = clean_uri (c ∷ s) in
      clean_uri-bare d (clean_uri-missed c s e)
      ∙ ap (λ x. collapse false (x ++ bar)) (clean_uri-bare (c ∷ s) e)
      ∙ collapse-collapse false (c ∷ s ++ bar) bar
      ∙ collapse-bars false (c ∷ s)
      ∙ sym (clean_uri-bare (c ∷ s) e)
]

-- One more bar at the front has no effect on a URI that has one there.
pub clean_uri-bar : (s : GoString) → has_prefix s bar ≡ true → clean_uri (b'/' ∷ s) ≡ clean_uri s
unfolding clean_uri collapse has_prefix
clean_uri-bar [] h = ground arith
clean_uri-bar (c ∷ s) h = ground arith
