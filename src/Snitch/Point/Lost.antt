-- ===== src/Snitch/Point/Lost.antt =====
-- A value that comes while Run waits to send.
use gobol.Base.{◌≡◌, ap, ◌∙◌, sym, refl, Bool, true, false, [], if◌then◌else◌, arith}
use gobol.Base.Text.{GoString, codes, str_eq}
use gobol.Base.Int.{ℤ, pos}
use gobol.Base.Float.{Float64, float_lt, float_zero}
use gobol.Snitch.Point.{
  CustomPoint, Arithmetic, set_value, value_add, aggregate, aggregate_by, pre, post, collect, run,
}

-- The state after `post` where the point is reset.
abbrev reset : CustomPoint → CustomPoint
reset p = record p { value = float_zero; val_null = true; count = pos 0 }

post_reset : (p : CustomPoint) → str_eq p.aggregation [] ≡ false → post p ≡ reset p
unfolding post
post_reset p h = rw h refl

reset-if :
    (b : Bool) (x y p : CustomPoint)
    → reset x ≡ reset p
    → reset y ≡ reset p
    → reset (if b then x else y) ≡ reset p
reset-if true x y p h k = h
reset-if false x y p h k = k

reset-aggregate :
    (a : GoString) (ops : Arithmetic) (v : Float64) (p : CustomPoint)
    → reset (aggregate_by a ops v p) ≡ reset p
unfolding aggregate_by value_add
reset-aggregate a ops v p =
    let added : reset (value_add ops v p) ≡ reset p = refl in
    reset-if (str_eq a (codes "avg")) _ _ p added (
      reset-if (str_eq a (codes "sum")) _ _ p added (
        reset-if (str_eq a (codes "max")) _ _ p
          (reset-if (float_lt p.value v) (set_value v p) p p refl refl)
          (reset-if (str_eq a (codes "min")) _ _ p
            (reset-if p.val_null (set_value v p) _ p refl
              (reset-if (float_lt v p.value) (set_value v p) p p refl refl))
            added)))

aggregation-if :
    (b : Bool) (x y : CustomPoint) (a : GoString)
    → x.aggregation ≡ a
    → y.aggregation ≡ a
    → (if b then x else y).aggregation ≡ a
aggregation-if true x y a h k = h
aggregation-if false x y a h k = k

aggregation-aggregate :
    (a : GoString) (ops : Arithmetic) (v : Float64) (p : CustomPoint)
    → (aggregate_by a ops v p).aggregation ≡ p.aggregation
aggregation-aggregate a ops v p = ap (λ q. q.aggregation) (reset-aggregate a ops v p)

aggregation-pre : (ops : Arithmetic) (p : CustomPoint) → (pre ops p).1.aggregation ≡ p.aggregation
unfolding pre
aggregation-pre ops p = ground arith

-- A value that is given to an aggregated point after Run has read it and before `post` resets it is lost: the
-- message has been made without it, and the point is left as it is without the call.
pub add_in_run_is_lost :
    (ops : Arithmetic) (now : ℤ) (p : CustomPoint) (v : Float64)
    → str_eq p.aggregation [] ≡ false
    → post (aggregate ops v (collect ops now p).1) ≡ (run ops now p).1
unfolding collect run aggregate
add_in_run_is_lost ops now p v h =
    let q = (pre ops p).1 in
    let known : str_eq q.aggregation [] ≡ false =
      ap (λ a. str_eq a []) (aggregation-pre ops p) ∙ h in
    post_reset (aggregate_by q.aggregation ops v q)
      (ap (λ a. str_eq a []) (aggregation-aggregate q.aggregation ops v q) ∙ known)
    ∙ reset-aggregate q.aggregation ops v q
    ∙ sym (post_reset q known)
