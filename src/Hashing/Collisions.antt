-- ===== src/Hashing/Collisions.antt =====
-- GenerateByteArray joins the bytes of the parameters with nothing between them.
use gobol.Base.{ap, ◌∙◌, ◌≡◌, refl, sym, List, [], ◌∷◌, ◌++◌, append_assoc, append-nil}
use gobol.Base.Text.{GoString, Bytes}
use gobol.Hashing.Value.{Value, Values, str, array, nil, cons, Outcome, ok, err, panicked, ◌>>=◌}
use gobol.Hashing.Convert.{get_byte_array, string_to_byte_array}
use gobol.Hashing.Generate.{Digests, Algorithm, append_parameters, generate_byte_array, generate}

abbrev prefix : Bytes → Outcome Bytes → Outcome Bytes
prefix r o = o >>= λ b. ok (r ++ b)

prefix-nil : (o : Outcome Bytes) → prefix [] o ≡ o
prefix-nil (ok b) = refl
prefix-nil (err e) = refl
prefix-nil panicked = refl

prefix-prefix : (a b : Bytes) (o : Outcome Bytes) → prefix (a ++ b) o ≡ prefix a (prefix b o)
prefix-prefix a b (ok c) = rw append_assoc
prefix-prefix a b (err e) = refl
prefix-prefix a b panicked = refl

append_parameters-prefix :
    (ps : List Value) (r : Bytes) → append_parameters ps r ≡ prefix r (append_parameters ps [])
unfolding append_parameters
append_parameters-prefix [] r = rw append-nil
append_parameters-prefix (p ∷ ps) r = go (append_parameters-prefix ps) (get_byte_array p)
  where
    go :
        ((s : Bytes) → append_parameters ps s ≡ prefix s (append_parameters ps []))
        → (o : Outcome Bytes)
        → (o >>= λ b. append_parameters ps (r ++ b)) ≡ prefix r (o >>= λ b. append_parameters ps b)
    go ih (ok b) =
        ih (r ++ b) ∙ prefix-prefix r b (append_parameters ps []) ∙ ap (prefix r) (sym (ih b))
    go ih (err e) = refl
    go ih panicked = refl

generate_byte_array-collect : (ps : List Value) → generate_byte_array ps ≡ append_parameters ps []
unfolding generate_byte_array
generate_byte_array-collect [] = refl
generate_byte_array-collect (p ∷ ps) = refl

generate_byte_array-cons :
    (p : Value) (ps : List Value)
    → generate_byte_array (p ∷ ps) ≡ (get_byte_array p >>= λ b. prefix b (generate_byte_array ps))
unfolding generate_byte_array
generate_byte_array-cons p ps = go (get_byte_array p)
  where
    go :
        (o : Outcome Bytes)
        → (o >>= λ b. append_parameters ps b) ≡ (o >>= λ b. prefix b (generate_byte_array ps))
    go (ok b) = append_parameters-prefix ps b ∙ ap (prefix b) (sym (generate_byte_array-collect ps))
    go (err e) = refl
    go panicked = refl

-- A list as the elements of a slice.
abbrev pub values_of : List Value → Values
values_of [] = nil
values_of (v ∷ vs) = cons v (values_of vs)

string_to_byte_array-id : (s : GoString) → string_to_byte_array s ≡ s
unfolding string_to_byte_array
string_to_byte_array-id [] = refl
string_to_byte_array-id (c ∷ s) = refl

generate_byte_array-str :
    (s : GoString) (ps : List Value)
    → generate_byte_array (str s ∷ ps) ≡ prefix s (generate_byte_array ps)
unfolding get_byte_array
generate_byte_array-str s ps =
    generate_byte_array-cons (str s) ps
    ∙ ap (λ b. prefix b (generate_byte_array ps)) (string_to_byte_array-id s)

split_bytes :
    (s t : GoString) (ps : List Value)
    → generate_byte_array (str s ∷ str t ∷ ps) ≡ generate_byte_array (str (s ++ t) ∷ ps)
split_bytes s t ps =
    generate_byte_array-str s (str t ∷ ps)
    ∙ ap (prefix s) (generate_byte_array-str t ps)
    ∙ sym (prefix-prefix s t (generate_byte_array ps))
    ∙ sym (generate_byte_array-str (s ++ t) ps)

bind_assoc :
    (o m : Outcome Bytes) (n : Outcome Bytes)
    → (o >>= λ a. prefix a (m >>= λ b. prefix b n)) ≡ ((o >>= λ a. prefix a m) >>= λ c. prefix c n)
bind_assoc (ok a) (ok b) n = sym (prefix-prefix a b n)
bind_assoc (ok a) (err e) n = refl
bind_assoc (ok a) panicked n = refl
bind_assoc (err e) m n = refl
bind_assoc panicked m n = refl

-- The bytes of a longer parameter list are the bytes of its two parts, one after the other, and the
-- first error or panic in the order of the parameters is the outcome.
pub generate_byte_array-append :
    (ps qs : List Value)
    → generate_byte_array (ps ++ qs)
      ≡ (generate_byte_array ps >>= λ a. generate_byte_array qs >>= λ b. ok (a ++ b))
unfolding generate_byte_array
generate_byte_array-append [] qs = sym (prefix-nil (generate_byte_array qs))
generate_byte_array-append (p ∷ ps) qs =
    generate_byte_array-cons p (ps ++ qs)
    ∙ rw (generate_byte_array-append ps qs) (
        bind_assoc (get_byte_array p) (generate_byte_array ps) (generate_byte_array qs)
        ∙ ap (λ o. o >>= λ a. prefix a (generate_byte_array qs))
            (sym (generate_byte_array-cons p ps)))

-- Whatever the algorithm, a text that is cut in two parameters has the hash of the whole text, so
-- that different parameter lists share one hash.
pub generate-split :
    (d : Digests) (algorithm : Algorithm) (s t : GoString) (ps : List Value)
    → generate d algorithm (str s ∷ str t ∷ ps) ≡ generate d algorithm (str (s ++ t) ∷ ps)
unfolding generate
generate-split d algorithm s t ps = rw (split_bytes s t ps)

-- A slice of values has the bytes of its elements as parameters.
pub generate_byte_array-spread :
    (vs : List Value) → get_byte_array (array (values_of vs)) ≡ generate_byte_array vs
unfolding get_byte_array generate_byte_array
generate_byte_array-spread [] = refl
generate_byte_array-spread (v ∷ vs) =
    rw (generate_byte_array-spread vs) (sym (generate_byte_array-cons v vs))
