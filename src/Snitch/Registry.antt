-- ===== src/Snitch/Registry.antt =====
-- snitch/snitch_dynamic.go and snitch/point_funcs.go: the points by their keys. getPoint looks a key up and
-- stores a new point in two critical sections, and adds the job after them: a call is one step only where no
-- call that overlaps it asks for the same new key. Two that do are modelled by the two parts of getPoint.
pub mod Key
pub mod Race
pub mod Jobs
use gobol.Base.{
  ◌*◌, ◌^◌, Bool, true, false, not, ◌||◌, List, [], ◌∷◌, ◌++◌, map, Option, none, some,
  if◌then◌else◌,
}
use gobol.Base.Text.{GoString, codes, str_eq, str_lt}
use gobol.Base.Int.{ℤ, pos}
use gobol.Base.Float.{Float64, float_zero}
use gobol.Base.Sort.{sort}
use gobol.Base.SyncMap.{SyncMap, load, store}
use gobol.Base.Outcome.{Outcome as GoOutcome, ok, err, panicked}
use gobol.Snitch.Point.{CustomPoint, Arithmetic, aggregate, Message, run}
use gobol.Snitch.Point as Point

-- strings.Join
unfoldable pub join : GoString → List GoString → GoString
join separator [] = []
join separator (s ∷ []) = s
join separator (s ∷ t ∷ ts) = s ++ separator ++ join separator (t ∷ ts)

-- keyFromMetricID; the tags are in the order in which the loop visits them.
abbrev pub merge_tag : GoString × GoString → GoString
merge_tag (k, v) = k ++ b'=' ∷ v

unfoldable pub key_from_metric_id : GoString → List (GoString × GoString) → GoString
unfolding join
key_from_metric_id metric tags =
    join (codes ", ") (sort str_lt (λ s. s) (map merge_tag tags) ++ metric ∷ [])

-- The points by their keys, and the jobs that cron has, each with the key of its point.
pub record Stats : Type 0 where
  pub tags : List (GoString × GoString)
  pub points : SyncMap CustomPoint
  pub jobs : List (GoString × GoString)

pub data Error : Type 0 where
  invalid_interval : GoString → Error
  unknown_aggregation : Error

abbrev pub Outcome : Type 0 → Type 0
Outcome = GoOutcome Error

-- aggregationsContants
unfoldable pub is_aggregation : GoString → Bool
is_aggregation a =
    str_eq a (codes "avg")
    || str_eq a (codes "min")
    || str_eq a (codes "max")
    || str_eq a (codes "sum")

-- metric.tags[k] = v
unfoldable pub store_tags : List (GoString × GoString) → SyncMap GoString → SyncMap GoString
store_tags [] m = m
store_tags ((k, v) ∷ ts) m = store_tags ts (store m k v)

unfoldable pub new_point :
    Stats → GoString → List (GoString × GoString) → GoString → GoString → Bool → Bool → CustomPoint
unfolding store_tags
new_point st metric_name tags aggregation interval keep nullable = record {
  metric = metric_name;
  tags = store_tags tags (store_tags st.tags []);
  value = float_zero;
  val_null = true;
  timestamp = pos 0;
  count = pos 0;
  interval = interval;
  aggregation = aggregation;
  keep_value = keep;
  send_on_null = nullable;
}

add_point : GoString → CustomPoint → Stats → Stats
add_point key p st = record st {
  points = store st.points key p;
  jobs = st.jobs ++ (p.interval, key) ∷ [];
}

-- The second part of (st *Stats) getPoint, after a Load that has found nothing; `parses` tells whether
-- cron.Parse accepts an interval.
unfoldable pub insert_point :
    (GoString → Bool)
    → GoString
    → List (GoString × GoString)
    → GoString
    → GoString
    → Bool
    → Bool
    → Stats
    → Stats × Outcome GoString
unfolding is_aggregation add_point
insert_point parses metric_name tags aggregation interval keep nullable st =
    if not (parses interval)
    then (st, err (invalid_interval interval))
    else if not (is_aggregation aggregation)
    then (st, err unknown_aggregation)
    else (
      add_point (key_from_metric_id metric_name tags)
          (new_point st metric_name tags aggregation interval keep nullable) st,
      ok (key_from_metric_id metric_name tags),
    )

-- (st *Stats) getPoint, which gives the key of the point
unfoldable pub get_point :
    (GoString → Bool)
    → GoString
    → List (GoString × GoString)
    → GoString
    → GoString
    → Bool
    → Bool
    → Stats
    → Stats × Outcome GoString
unfolding insert_point
get_point parses metric_name tags aggregation interval keep nullable st =
    elim (load st.points (key_from_metric_id metric_name tags)) [
      | some _ ↦ (st, ok (key_from_metric_id metric_name tags))
      | none ↦ insert_point parses metric_name tags aggregation interval keep nullable st
    ]

-- A change of the point that a key leads to.
unfoldable pub update_point :
    (CustomPoint → CustomPoint) → Stats × Outcome GoString → Stats × Outcome (Unit {0})
update_point f (st, ok key) = elim (load st.points key) [
  | some p ↦ (record st { points = store st.points key (f p) }, ok tt)
  | none ↦ (st, ok tt)
]
update_point f (st, err e) = (st, err e)
update_point f (st, panicked) = (st, panicked)

-- 1.0
abbrev float_one : Float64
float_one = 1023 * 2 ^ 52

-- (st *Stats) ValueAdd
unfoldable pub value_add :
    (GoString → Bool)
    → Arithmetic
    → GoString
    → List (GoString × GoString)
    → GoString
    → GoString
    → Bool
    → Bool
    → Float64
    → Stats
    → Stats × Outcome (Unit {0})
unfolding update_point
value_add parses ops metric_name tags aggregation interval keep nullable v st =
    update_point (aggregate ops v)
      (get_point parses metric_name tags aggregation interval keep nullable st)

-- (st *Stats) Increment
unfoldable pub increment :
    (GoString → Bool)
    → Arithmetic
    → GoString
    → List (GoString × GoString)
    → GoString
    → Bool
    → Bool
    → Stats
    → Stats × Outcome (Unit {0})
unfolding value_add
increment parses ops metric_name tags interval keep nullable =
    value_add parses ops metric_name tags (codes "sum") interval keep nullable float_one

-- (st *Stats) SetValue
unfoldable pub set_value :
    (GoString → Bool)
    → GoString
    → List (GoString × GoString)
    → GoString
    → Bool
    → Bool
    → Float64
    → Stats
    → Stats × Outcome (Unit {0})
unfolding update_point
set_value parses metric_name tags interval keep nullable v st =
    update_point (Point.set_value v)
      (get_point parses metric_name tags (codes "sum") interval keep nullable st)

-- The cron job of a point.
unfoldable pub run_job : Arithmetic → ℤ → GoString → Stats → Option Message × Stats
run_job ops now key st = elim (load st.points key) [
  | some p ↦ let r = run ops now p in (r.0, record st { points = store st.points key r.1 })
  | none ↦ (none, st)
]
