-- ===== src/Timeline/Flattener/Flatten.antt =====
-- The aggregations of `flatten`.
use mathlib.Core.Path.{subst}
use gobol.Base.{
  ◌⊎◌, leb, ◌≡◌, ◌≢◌, ◌≤◌, ◌<◌, refl, inl, inr, zero, suc, true, false, List, [], ◌∷◌, arith,
  Bool-cases, All, Elem,
}
use gobol.Base.Float.{Float64, FloatOps, float_lt, is_nan}
use gobol.Base.Outcome.{Succeeds}
use gobol.Timeline.Point.{FlatOperation, min, max, operation_not_mapped, ok, err}
use gobol.Timeline.Flattener.{min_from, max_from, flat_value}

abbrev pub IsNumber : Float64 → Type 0
IsNumber x = is_nan x ≡ false

-- x ≤ y as `!(y < x)`.
abbrev pub AtMost : Float64 → Float64 → Type 0
AtMost x y = float_lt y x ≡ false

AtMost-refl : (x : Float64) → AtMost x x
unfolding float_lt
AtMost-refl x = ground arith

AtMost-trans : (x y z : Float64) → IsNumber y → AtMost x y → AtMost y z → AtMost x z
unfolding float_lt
AtMost-trans x y z n h k = ground arith

AtMost-of-lt : (x y : Float64) → float_lt x y ≡ true → AtMost x y
unfolding float_lt
AtMost-of-lt x y h = ground arith

-- The properties of the largest value, with the value that the loop starts from.
abbrev IsLargest : Float64 → List Float64 → Type 0
IsLargest m vs = IsNumber m × Elem m vs × All (λ x. AtMost x m) vs

max_from-take :
    (v w : Float64) (vs : List Float64) → float_lt v w ≡ true → max_from w vs ≡ max_from v (w ∷ vs)
unfolding max_from
max_from-take v w vs e = rw e

max_from-skip :
    (v w : Float64) (vs : List Float64) → float_lt v w ≡ false → max_from v vs ≡ max_from v (w ∷ vs)
unfolding max_from
max_from-skip v w vs e = rw e

max_from_lem :
    (v : Float64) (vs : List Float64)
    → IsNumber v
    → All IsNumber vs
    → IsLargest (max_from v vs) (v ∷ vs)
unfolding max_from
max_from_lem v [] n ns = (n, inl refl, (AtMost-refl v, tt))
max_from_lem v (w ∷ vs) n (m, ns) = elim (Bool-cases (float_lt v w)) [
  | inl e ↦
      let (k, i, (a, b)) = max_from_lem w vs m ns in
      subst (λ m. IsLargest m (v ∷ w ∷ vs)) (max_from-take v w vs e)
        (k, inr i, (AtMost-trans v w _ m (AtMost-of-lt v w e) a, (a, b)))
  | inr e ↦
      let (k, i, (a, b)) = max_from_lem v vs n ns in
      subst (λ m. IsLargest m (v ∷ w ∷ vs)) (max_from-skip v w vs e)
        (k, elim i [ inl q ↦ inl q | inr q ↦ inr (inr q) ], (a, (AtMost-trans w v _ n e a, b)))
]

abbrev IsSmallest : Float64 → List Float64 → Type 0
IsSmallest m vs = IsNumber m × Elem m vs × All (λ x. AtMost m x) vs

min_from-take :
    (v w : Float64) (vs : List Float64) → float_lt w v ≡ true → min_from w vs ≡ min_from v (w ∷ vs)
unfolding min_from
min_from-take v w vs e = rw e

min_from-skip :
    (v w : Float64) (vs : List Float64) → float_lt w v ≡ false → min_from v vs ≡ min_from v (w ∷ vs)
unfolding min_from
min_from-skip v w vs e = rw e

min_from_lem :
    (v : Float64) (vs : List Float64)
    → IsNumber v
    → All IsNumber vs
    → IsSmallest (min_from v vs) (v ∷ vs)
unfolding min_from
min_from_lem v [] n ns = (n, inl refl, (AtMost-refl v, tt))
min_from_lem v (w ∷ vs) n (m, ns) = elim (Bool-cases (float_lt w v)) [
  | inl e ↦
      let (k, i, (a, b)) = min_from_lem w vs m ns in
      subst (λ m. IsSmallest m (v ∷ w ∷ vs)) (min_from-take v w vs e)
        (k, inr i, (AtMost-trans _ w v m a (AtMost-of-lt w v e), (a, b)))
  | inr e ↦
      let (k, i, (a, b)) = min_from_lem v vs n ns in
      subst (λ m. IsSmallest m (v ∷ w ∷ vs)) (min_from-skip v w vs e)
        (k, elim i [ inl q ↦ inl q | inr q ↦ inr (inr q) ], (a, (AtMost-trans _ v w n a e, b)))
]

-- Over values that are numbers, Max gives one of them that is below none of them, and Min gives one
-- of them that is above none of them.
pub flat_value-extremes :
    (ops : FloatOps) (v : Float64) (vs : List Float64)
    → IsNumber v
    → All IsNumber vs
    → ((m : Float64) × (flat_value ops max (v ∷ vs) ≡ ok m)
        × Elem m (v ∷ vs)
        × All (λ x. AtMost x m) (v ∷ vs))
      × ((m : Float64) × (flat_value ops min (v ∷ vs) ≡ ok m)
          × Elem m (v ∷ vs)
          × All (λ x. AtMost m x) (v ∷ vs))
unfolding flat_value
flat_value-extremes ops v vs n ns =
    let (a, b, c) = max_from_lem v vs n ns in
    let (d, e, f) = min_from_lem v vs n ns in
    ((max_from v vs, refl, b, c), (min_from v vs, refl, e, f))

mapped :
    (ops : FloatOps) (operation : FlatOperation) (v : Float64) (vs : List Float64)
    → operation ≤ 4
    → Succeeds (flat_value ops operation (v ∷ vs))
unfolding flat_value
mapped ops zero v vs h = (_, refl)
mapped ops (suc zero) v vs h = (_, refl)
mapped ops (suc (suc zero)) v vs h = (_, refl)
mapped ops (suc (suc (suc zero))) v vs h = (_, refl)
mapped ops (suc (suc (suc (suc zero)))) v vs h = (_, refl)
mapped ops (suc (suc (suc (suc (suc n))))) v vs h = absurd (omega arith)

-- On an entry with a value, each of the five operations gives a number, and any other operation
-- gives the error that names it.
pub flat_value-total :
    (ops : FloatOps) (operation : FlatOperation) (values : List Float64)
    → values ≢ []
    → ((operation ≤ 4) × Succeeds (flat_value ops operation values))
      ⊎ ((4 < operation) × (flat_value ops operation values ≡ err (operation_not_mapped operation)))
unfolding flat_value
flat_value-total ops operation [] h = absurd (h refl)
flat_value-total ops operation (v ∷ vs) h = elim (Bool-cases (leb operation 4)) [
  | inl e ↦ let small : operation ≤ 4 = ground arith in inl (small, mapped ops operation v vs small)
  | inr e ↦ let large : 4 < operation = ground arith in inr (large, ground arith)
]
