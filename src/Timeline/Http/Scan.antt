-- ===== src/Timeline/Http/Scan.antt =====
-- What the loop over the parameters of an item does, pair by pair.
use gobol.Base.{
  ap, sym, ◌∙◌, ◌≡◌, ◌≢◌, ◌⊎◌, inl, inr, refl, Bool, true, false, List, [], ◌∷◌, ◌++◌, append_assoc,
  append-nil, arith, All, Bool-cases,
}
use gobol.Base.Text.{GoString, str_eq, str_eq_iff, str_eq_refl}
use gobol.Base.Int.{ℤ}
use gobol.Base.Float.{Float64}
use gobol.Hashing.Value.{Value, str, int, float, bits64}
use gobol.Timeline.Config.{HttpConfig}
use gobol.Timeline.Point.{ok}
use gobol.Timeline.Http.Convert.{
  Scan, Mode, even, odd, take_value, take_timestamp, keep, step, scan,
}

-- Properties with their values, as a list of parameters.
abbrev pub flat : List (GoString × Value) → List Value
flat [] = []
flat ((k, v) ∷ ps) = str k ∷ v ∷ flat ps

abbrev pub extend : Scan → List Value → Scan
extend s vs = record s { parameters = s.parameters ++ vs }

-- A key that the loop passes on, given what it has found.
abbrev pub IsPlain : HttpConfig → Bool → Bool → GoString → Type 0
IsPlain c value_found timestamp_found k =
    (value_found ≡ false → k ≢ c.value_property)
    × (timestamp_found ≡ false → k ≢ c.timestamp_property)

ne-false : (s t : GoString) → s ≢ t → str_eq s t ≡ false
ne-false s t n = elim (Bool-cases (str_eq s t)) [
  | inl e ↦ absurd (n ((str_eq_iff s t).0 e))
  | inr e ↦ e
]

module _ (c : HttpConfig) where
  pub scan-cons :
      (v : Value) (vs : List Value) (m m' : Mode) (s s' : Scan)
      → step c v m s ≡ ok (m', s')
      → scan c (v ∷ vs) m s ≡ scan c vs m' s'
  unfolding scan
  scan-cons v vs m m' s s' h = rw h

  step_plain :
      (k : GoString) (s : Scan)
      → IsPlain c s.value_found s.timestamp_found k
      → step c (str k) even s ≡ ok (odd, keep (str k) s)
  unfolding step
  step_plain k s (nv, nt) =
      ground (arith, nv, nt, str_eq_iff k c.value_property, str_eq_iff k c.timestamp_property)

  step_odd : (v : Value) (s : Scan) → step c v odd s ≡ ok (even, keep v s)
  unfolding step
  step_odd v s = refl

  step_found :
      (v : Value) (s : Scan)
      → s.value_found ≡ true
      → s.timestamp_found ≡ true
      → step c v even s ≡ ok (odd, keep v s)
  unfolding step
  step_found v s p q = ground arith

  scan_pair :
      (k : GoString) (v : Value) (ys : List Value) (s : Scan)
      → IsPlain c s.value_found s.timestamp_found k
      → scan c (str k ∷ v ∷ ys) even s ≡ scan c ys even (extend s (str k ∷ v ∷ []))
  scan_pair k v ys s h =
      scan-cons (str k) (v ∷ ys) even odd s _ (step_plain k s h)
      ∙ scan-cons v ys odd even (keep (str k) s) _ (step_odd v (keep (str k) s))
      ∙ ap (λ l. scan c ys even (record s { parameters = l }))
          (append_assoc s.parameters (str k ∷ []) (v ∷ []))

  -- Pairs with plain keys are kept.
  pub scan-flat :
      (ps : List (GoString × Value)) (ys : List Value) (s : Scan)
      → All (λ p. IsPlain c s.value_found s.timestamp_found p.0) ps
      → scan c (flat ps ++ ys) even s ≡ scan c ys even (extend s (flat ps))
  scan-flat [] ys s h =
      ap (λ l. scan c ys even (record s { parameters = l })) (sym (append-nil s.parameters))
  scan-flat ((k, v) ∷ ps) ys s (h, hs) =
      scan_pair k v (flat ps ++ ys) s h
      ∙ scan-flat ps ys (extend s (str k ∷ v ∷ [])) hs
      ∙ ap (λ l. scan c ys even (record s { parameters = l }))
          (append_assoc s.parameters (str k ∷ v ∷ []) (flat ps))

  -- With both properties found the rest is kept, whatever it is.
  pub scan_found :
      (vs : List Value) (m : Mode) (s : Scan)
      → (m ≡ even) ⊎ (m ≡ odd)
      → s.value_found ≡ true
      → s.timestamp_found ≡ true
      → scan c vs m s ≡ ok (extend s vs)
  scan_found [] even s h v t = unfold scan in rw append-nil
  scan_found [] odd s h v t = unfold scan in rw append-nil
  scan_found (w ∷ vs) even s h v t =
      scan-cons w vs even odd s _ (step_found w s v t)
      ∙ scan_found vs odd (keep w s) (inr refl) v t
      ∙ ap (λ l. ok (record s { parameters = l })) (append_assoc s.parameters (w ∷ []) vs)
  scan_found (w ∷ vs) odd s h v t =
      scan-cons w vs odd even s _ (step_odd w s)
      ∙ scan_found vs even (keep w s) (inl refl) v t
      ∙ ap (λ l. ok (record s { parameters = l })) (append_assoc s.parameters (w ∷ []) vs)
  scan_found vs take_value s (inl h) v t = cc
  scan_found vs take_value s (inr h) v t = cc
  scan_found vs take_timestamp s (inl h) v t = cc
  scan_found vs take_timestamp s (inr h) v t = cc

  pub step_value_key :
      (s : Scan)
      → s.value_found ≡ false
      → step c (str c.value_property) even s ≡ ok (take_value, record s { value_found = true })
  unfolding step
  step_value_key s v = ground (arith, str_eq_refl c.value_property)

  step_timestamp_key :
      (s : Scan)
      → (s.value_found ≡ false → c.timestamp_property ≢ c.value_property)
      → s.timestamp_found ≡ false
      → step c (str c.timestamp_property) even s
        ≡ ok (take_timestamp, record s { timestamp_found = true })
  unfolding step
  step_timestamp_key s n t =
      ground (
        arith,
        n,
        str_eq_refl c.timestamp_property,
        str_eq_iff c.timestamp_property c.value_property,
      )

  step_value :
      (x : Float64) (s : Scan)
      → step c (float bits64 x) take_value s ≡ ok (even, record s { value = x })
  unfolding step
  step_value x s = refl

  step_timestamp :
      (n : ℤ) (s : Scan)
      → step c (int bits64 n) take_timestamp s ≡ ok (even, record s { timestamp = n })
  unfolding step
  step_timestamp n s = refl

  pub scan_value :
      (x : Float64) (ys : List Value) (s : Scan)
      → s.value_found ≡ false
      → scan c (str c.value_property ∷ float bits64 x ∷ ys) even s
        ≡ scan c ys even (record s { value_found = true; value = x })
  scan_value x ys s v =
      scan-cons _ (float bits64 x ∷ ys) even take_value s _ (step_value_key s v)
      ∙ scan-cons (float bits64 x) ys take_value even (record s { value_found = true }) _
          (step_value x (record s { value_found = true }))

  pub scan_timestamp :
      (n : ℤ) (ys : List Value) (s : Scan)
      → (s.value_found ≡ false → c.timestamp_property ≢ c.value_property)
      → s.timestamp_found ≡ false
      → scan c (str c.timestamp_property ∷ int bits64 n ∷ ys) even s
        ≡ scan c ys even (record s { timestamp_found = true; timestamp = n })
  scan_timestamp n ys s v t =
      scan-cons _ (int bits64 n ∷ ys) even take_timestamp s _ (step_timestamp_key s v t)
      ∙ scan-cons (int bits64 n) ys take_timestamp even (record s { timestamp_found = true }) _
          (step_timestamp n (record s { timestamp_found = true }))
