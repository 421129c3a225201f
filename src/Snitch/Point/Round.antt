-- ===== src/Snitch/Point/Round.antt =====
-- What a point sends after the values of one interval, and what it starts the next interval with.
use mathlib.Core.Path.{subst}
use gobol.Base.{
  sym, not, ◌||◌, ap, ◌∙◌, ◌≡◌, refl, Bool, true, false, List, [], ◌∷◌, Option, none, some,
  if◌then◌else◌, All, arith, Bool-cases, inl, inr,
}
use gobol.Base.Text.{codes, str_eq}
use gobol.Base.Int.{ℤ, pos}
use gobol.Base.Float.{Float64, FloatOps, float_lt, float_zero}
use gobol.Timeline.Point.{FlatOperation, sum, min, ok}
use gobol.Timeline.Flattener.{sum_from, min_from, flat_value}
use gobol.Snitch.Point.{
  CustomPoint, Message, Arithmetic, set_value, value_add, aggregate, aggregate_by, pre, post,
  message_of, run,
}

-- A point as it is made, and as Run leaves it.
pub record IsFresh (p : CustomPoint) : Type 0 where
  pub zero_value : p.value ≡ float_zero
  pub null : p.val_null ≡ true
  pub zero_count : p.count ≡ pos 0

module _ (ops : Arithmetic) where
  abbrev pub aggregate_each : List Float64 → CustomPoint → CustomPoint
  aggregate_each [] p = p
  aggregate_each (v ∷ vs) p = aggregate_each vs (aggregate ops v p)

  -- The values of an interval, and the job at its end.
  abbrev pub interval : ℤ → List Float64 → CustomPoint → Option Message × CustomPoint
  interval now vs p = run ops now (aggregate_each vs p)

  aggregate_min :
      (v : Float64) (p : CustomPoint)
      → p.aggregation ≡ codes "min"
      → aggregate ops v p
        ≡ (if p.val_null then set_value v p else if float_lt v p.value then set_value v p else p)
  unfolding aggregate aggregate_by str_eq
  aggregate_min v p h = ap (λ a. aggregate_by a ops v p) h

  aggregate_sum :
      (v : Float64) (p : CustomPoint)
      → p.aggregation ≡ codes "sum"
      → aggregate ops v p ≡ value_add ops v p
  unfolding aggregate aggregate_by str_eq
  aggregate_sum v p h = ap (λ a. aggregate_by a ops v p) h

  aggregate_max :
      (v : Float64) (p : CustomPoint)
      → p.aggregation ≡ codes "max"
      → aggregate ops v p ≡ (if float_lt p.value v then set_value v p else p)
  unfolding aggregate aggregate_by str_eq
  aggregate_max v p h = ap (λ a. aggregate_by a ops v p) h

  if-swap :
      (b : Bool) (v : Float64) (p : CustomPoint)
      → p.val_null ≡ false
      → (if b then set_value v p else p) ≡ set_value (if b then v else p.value) p
  if-swap true v p n = refl
  if-swap false v p n = ap (λ x. record p { val_null = x }) n

  aggregate_each-min :
      (vs : List Float64) (p : CustomPoint)
      → p.aggregation ≡ codes "min"
      → p.val_null ≡ false
      → aggregate_each vs p ≡ set_value (min_from p.value vs) p
  unfolding min_from
  aggregate_each-min [] p a n = ap (λ x. record p { val_null = x }) n
  aggregate_each-min (v ∷ vs) p a n =
      let w = if float_lt v p.value then v else p.value in
      ap (aggregate_each vs) (
        aggregate_min v p a
        ∙ ap (λ x. if x then set_value v p else if float_lt v p.value then set_value v p else p) n
        ∙ if-swap (float_lt v p.value) v p n)
      ∙ aggregate_each-min vs (set_value w p) a refl

  aggregate_each-max :
      (vs : List Float64) (p : CustomPoint)
      → p.aggregation ≡ codes "max"
      → All (λ v. float_lt p.value v ≡ false) vs
      → aggregate_each vs p ≡ p
  aggregate_each-max [] p a h = refl
  aggregate_each-max (v ∷ vs) p a (h, hs) =
      ap (aggregate_each vs) (aggregate_max v p a ∙ ap (λ x. if x then set_value v p else p) h)
      ∙ aggregate_each-max vs p a hs

  -- The sum that the flattener computes, with the arithmetic of the points.
  abbrev flat_ops : FloatOps
  flat_ops = record { add = ops.add; div = ops.div; of_int = λ n. ops.of_int (pos n) }

  aggregate_each-sum :
      (vs : List Float64) (p : CustomPoint)
      → p.aggregation ≡ codes "sum"
      → p.val_null ≡ false
      → (i : ℤ) × (aggregate_each vs p
          ≡ record p { value = sum_from flat_ops p.value vs; count = i; val_null = false })
  unfolding sum_from value_add
  aggregate_each-sum [] p a n = (p.count, ap (λ x. record p { val_null = x }) n)
  aggregate_each-sum (v ∷ vs) p a n =
      let (i, e) = aggregate_each-sum vs (value_add ops v p) a refl in
      (i, ap (aggregate_each vs) (aggregate_sum v p a) ∙ e)

  abbrev cleared : CustomPoint → CustomPoint
  cleared p = record p { value = float_zero; val_null = true; count = pos 0 }

  cleared_fresh : (p : CustomPoint) → IsFresh p → cleared p ≡ p
  cleared_fresh p f =
      ap (λ x. record p { value = x; val_null = true; count = pos 0 }) (sym f.zero_value)
      ∙ ap (λ x. record p { val_null = x; count = pos 0 }) (sym f.null)
      ∙ ap (λ x. record p { count = x }) (sym f.zero_count)

  post_cleared : (p : CustomPoint) → str_eq p.aggregation [] ≡ false → post p ≡ cleared p
  unfolding post
  post_cleared p h = ap (λ b. if not b || not p.keep_value then cleared p else p) h

  pre_plain :
      (p : CustomPoint)
      → p.val_null ≡ false
      → str_eq p.aggregation (codes "avg") ≡ false
      → pre ops p ≡ (true, p)
  unfolding pre
  pre_plain p n h = elim (Bool-cases p.send_on_null) [ inl e ↦ ground arith | inr e ↦ ground arith ]

  run_plain :
      (now : ℤ) (p : CustomPoint)
      → p.val_null ≡ false
      → str_eq p.aggregation (codes "avg") ≡ false
      → str_eq p.aggregation [] ≡ false
      → run ops now p ≡ (some (message_of now p), cleared p)
  unfolding run
  run_plain now p n a e =
      ap (λ r. (if r.0 then some (message_of now r.1) else none, post r.1)) (pre_plain p n a)
      ∙ ap (λ q. (some (message_of now p), q)) (post_cleared p e)

  run_null :
      (now : ℤ) (p : CustomPoint)
      → p.val_null ≡ true
      → p.send_on_null ≡ false
      → str_eq p.aggregation [] ≡ false
      → run ops now p ≡ (none, cleared p)
  unfolding run
  run_null now p n s e =
      let quiet : pre ops p ≡ (false, p) = unfold pre in ground arith in
      ap (λ r. (if r.0 then some (message_of now r.1) else none, post r.1)) quiet
      ∙ ap (λ q. (none, q)) (post_cleared p e)

  -- The message that a fresh point sends after some values, and what the flattener makes of them.
  abbrev pub Sends : ℤ → FlatOperation → List Float64 → CustomPoint → Type 0
  Sends now operation vs p =
      (m : Message) × (interval now vs p ≡ (some m, p))
      × (flat_value flat_ops operation vs ≡ ok m.value)

  Sends-min :
      (now : ℤ) (p : CustomPoint) (v : Float64) (vs : List Float64)
      → IsFresh p
      → p.aggregation ≡ codes "min"
      → Sends now min (v ∷ vs) p
  unfolding flat_value message_of str_eq
  Sends-min now p v vs f a =
      let q : CustomPoint = set_value (min_from v vs) p in
      let seen : aggregate_each (v ∷ vs) p ≡ q =
        ap (aggregate_each vs) (
          aggregate_min v p a
          ∙ ap (λ x. if x then set_value v p else if float_lt v p.value then set_value v p else p)
              f.null)
        ∙ aggregate_each-min vs (set_value v p) a refl in
      (
        message_of now q,
        ap (run ops now) seen
            ∙ run_plain now q refl (ap (λ x. str_eq x (codes "avg")) a) (ap (λ x. str_eq x []) a)
            ∙ ap (λ x. (some (message_of now q), x)) (cleared_fresh p f),
        refl,
      )

  Sends-sum :
      (now : ℤ) (p : CustomPoint) (v : Float64) (vs : List Float64)
      → IsFresh p
      → p.aggregation ≡ codes "sum"
      → Sends now sum (v ∷ vs) p
  unfolding flat_value message_of str_eq value_add sum_from
  Sends-sum now p v vs f a =
      let (i, e) = aggregate_each-sum vs (value_add ops v p) a refl in
      let q : CustomPoint = record p {
        value = sum_from flat_ops (ops.add p.value v) vs;
        count = i;
        val_null = false;
      } in
      (
        message_of now q,
        ap (run ops now) (ap (aggregate_each vs) (aggregate_sum v p a) ∙ e)
            ∙ run_plain now q refl (ap (λ x. str_eq x (codes "avg")) a) (ap (λ x. str_eq x []) a)
            ∙ ap (λ x. (some (message_of now q), x)) (cleared_fresh p f),
        ap (λ z. ok (sum_from flat_ops (ops.add z v) vs)) (sym f.zero_value),
      )

  -- For a fresh point that gets one or more values, the job sends their sum if it aggregates by "sum" and
  -- their minimum if by "min", as the flattener of the timeline computes them, and leaves the point fresh,
  -- also where keepValue is set.
  pub interval-flat_value :
      (now : ℤ) (p : CustomPoint) (v : Float64) (vs : List Float64)
      → IsFresh p
      → Sends now sum (v ∷ vs) (record p { aggregation = codes "sum" })
        × Sends now min (v ∷ vs) (record p { aggregation = codes "min" })
  interval-flat_value now p v vs f = (
    Sends-sum now (record p { aggregation = codes "sum" }) v vs
        (record { zero_value = f.zero_value; null = f.null; zero_count = f.zero_count }) refl,
    Sends-min now (record p { aggregation = codes "min" }) v vs
        (record { zero_value = f.zero_value; null = f.null; zero_count = f.zero_count }) refl,
  )

  -- A fresh point that aggregates by "max" takes no value that is not above zero: after such values it is
  -- still null, and unless null points are sent, the job sends nothing.
  pub interval-max_ignores :
      (now : ℤ) (p : CustomPoint) (vs : List Float64)
      → IsFresh p
      → p.aggregation ≡ codes "max"
      → p.send_on_null ≡ false
      → All (λ v. float_lt float_zero v ≡ false) vs
      → (aggregate_each vs p ≡ p) × (interval now vs p ≡ (none, p))
  unfolding str_eq
  interval-max_ignores now p vs f a s h =
      let same : aggregate_each vs p ≡ p =
        aggregate_each-max vs p a
          (subst (λ z. All (λ v. float_lt z v ≡ false) vs) (sym f.zero_value) h) in
      (
        same,
        ap (run ops now) same
            ∙ run_null now p f.null s (ap (λ x. str_eq x []) a)
            ∙ ap (λ x. (none, x)) (cleared_fresh p f),
      )
