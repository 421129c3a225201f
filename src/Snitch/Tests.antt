-- ===== src/Snitch/Tests.antt =====
-- The theorems on the statistics at concrete values, and runs of the calls.
use mathlib.Core.List.{Permᴰ}
use gobol.Base.{
  ◌≡◌, ◌∷◌, [], ◌++◌, List, refl, Bool, true, false, Option, none, some, All, ℕ, ◌+◌, if◌then◌else◌,
}
use gobol.Base.Text.{GoString, codes, str_eq, str_lt}
use gobol.Base.Int.{pos}
use gobol.Base.Float.{Float64, float_lt, float_zero}
use gobol.Base.SyncMap.{load, store}
use gobol.Base.Outcome.{err}
use gobol.Timeline.Point.{sum, min}
use gobol.Snitch.Point.{CustomPoint, Arithmetic}
use gobol.Snitch.Point.Round.{
  IsFresh, Sends, aggregate_each, interval, interval-flat_value, interval-max_ignores,
}
use gobol.Snitch.Registry.{
  Stats, key_from_metric_id, get_point, insert_point, unknown_aggregation, join,
}
use gobol.Snitch.Registry.Jobs.{
  add_value, put_value, job, IsScheduled, perform_all, perform_all-IsScheduled,
}
use gobol.Snitch.Registry.Key.{key_from_metric_id-perm}

-- An addition and a division that are no arithmetic.
abbrev plain : Arithmetic
plain = record { add = λ x y. x + y; div = λ x y. x; of_int = λ i. 0 }

abbrev point : GoString → CustomPoint
point a = record {
  metric = codes "m";
  tags = [];
  value = float_zero;
  val_null = true;
  timestamp = pos 0;
  count = pos 0;
  interval = codes "@every 1m";
  aggregation = a;
  keep_value = true;
  send_on_null = false;
}

point-IsFresh : (a : GoString) → IsFresh (point a)
point-IsFresh a = record { zero_value = refl; null = refl; zero_count = refl }

interval-flat_value_example :
    Sends plain (pos 9) sum (4 ∷ 3 ∷ []) (point (codes "sum"))
    × Sends plain (pos 9) min (4 ∷ 3 ∷ []) (point (codes "min"))
interval-flat_value_example =
    interval-flat_value plain (pos 9) (point (codes "sum")) 4 (3 ∷ []) (point-IsFresh (codes "sum"))

-- -0 and -1
abbrev negatives : List Float64
negatives = 9223372036854775808 ∷ 13830554455654793216 ∷ []

not_above : All (λ v. float_lt float_zero v ≡ false) negatives
unfolding float_lt
not_above = (refl, (refl, tt))

interval-max_ignores_example :
    (aggregate_each plain negatives (point (codes "max")) ≡ point (codes "max"))
    × (interval plain (pos 9) negatives (point (codes "max")) ≡ (none, point (codes "max")))
interval-max_ignores_example =
    interval-max_ignores plain (pos 9) (point (codes "max")) negatives (point-IsFresh (codes "max"))
      refl refl not_above

key_from_metric_id-perm_example :
    key_from_metric_id (codes "m") ((codes "a", codes "1") ∷ (codes "b", codes "2") ∷ [])
    ≡ key_from_metric_id (codes "m") ((codes "b", codes "2") ∷ (codes "a", codes "1") ∷ [])
key_from_metric_id-perm_example = key_from_metric_id-perm (codes "m") (Permᴰ.swap refl refl)

in_order : str_lt (codes "b=2") (codes "a=1") ≡ false
unfolding str_lt
in_order = refl

abbrev empty_stats : Stats
empty_stats = record { tags = (codes "host", codes "h") ∷ []; points = []; jobs = [] }

abbrev get : GoString → Stats → Stats
get a st = (get_point (λ i. true) (codes "m") [] a (codes "@every 1m") false false st).0

unknown :
    (get_point
      (λ i. true)
      (codes "m")
      []
      (codes "median")
      (codes "@every 1m")
      false
      false
      empty_stats).1
    ≡ err unknown_aggregation
unfolding get_point insert_point load str_eq key_from_metric_id join
unknown = refl

-- A second call for a known key makes neither a point nor a job, whatever its aggregation.
known : get (codes "median") (get (codes "max") empty_stats) ≡ get (codes "max") empty_stats
unfolding get_point insert_point load store str_eq key_from_metric_id join gobol.Base.Sort.sort
known = refl

perform_all-IsScheduled_example : IsScheduled (
    perform_all
      (λ i. true)
      plain
      (add_value (codes "m") [] (codes "min") (codes "@every 1m") false false 3
        ∷ put_value (codes "n") [] (codes "@every 1m") false false 4
        ∷ job (pos 9) (codes "m")
        ∷ [])
      empty_stats)
perform_all-IsScheduled_example =
    perform_all-IsScheduled (λ i. true) plain
      (add_value (codes "m") [] (codes "min") (codes "@every 1m") false false 3
        ∷ put_value (codes "n") [] (codes "@every 1m") false false 4
        ∷ job (pos 9) (codes "m")
        ∷ [])
      empty_stats refl

abbrev overlapped : Stats
overlapped =
    (insert_point (λ i. true) (codes "m") [] (codes "sum") (codes "@every 5s") false true
      (insert_point (λ i. true) (codes "m") [] (codes "sum") (codes "@every 1m") false true
        empty_stats).0).0
