-- ===== src/Base/Outcome.antt =====
-- The outcome of a Go call: a value, an error value, or a panic.
use mathlib.Core.Path.{◌≡◌, refl}

pub data Outcome (E A : Type 0) : Type 0 where
  ok : A → Outcome E A
  err : E → Outcome E A
  panicked : Outcome E A

infixl 5 ◌>>=◌
abbrev pub ◌>>=◌ : {E A B : Type 0} → Outcome E A → (A → Outcome E B) → Outcome E B
ok a >>= f = f a
err e >>= f = err e
panicked >>= f = panicked

-- The error of a call that goes on in a caller with more errors.
abbrev pub map_err : {D E A : Type 0} → (D → E) → Outcome D A → Outcome E A
map_err f (ok a) = ok a
map_err f (err e) = err (f e)
map_err f panicked = panicked

abbrev pub Succeeds : {E A : Type 0} → Outcome E A → Type 0
Succeeds {A = A} o = (a : A) × (o ≡ ok a)

-- A chain that gives a value has given one in each part.
pub bind_ok :
    {E A B : Type 0} (o : Outcome E A) (f : A → Outcome E B) (b : B)
    → (o >>= f) ≡ ok b
    → (a : A) × (o ≡ ok a) × (f a ≡ ok b)
bind_ok (ok a) f b h = (a, refl, h)
bind_ok (err e) f b h = cc
bind_ok panicked f b h = cc
