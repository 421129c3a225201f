-- ===== src/Timeline/Flattener.antt =====
-- timeline/flattener.go: the points of a cycle are grouped by the hash of their parameters, and each
-- group is sent as one point. time.After and the logging have no part in the state.
pub mod Groups
pub mod Flatten
pub mod Cycle
pub mod Safety
use gobol.Base.{
  ℕ, zero, suc, ◌+◌, ◌-◌, ◌/◌, ◌%◌, Bool, true, false, Option, none, some, List, [], ◌∷◌, ◌++◌,
  length, ltb, leb, ◌==◌, if◌then◌else◌,
}
use gobol.Base.Text.{GoString, Bytes}
use gobol.Base.Float.{Float64, FloatOps, float_lt, float_zero}
use gobol.Base.SyncMap.{SyncMap, load, store, delete}
use gobol.Hashing.Value.{Value}
use gobol.Hashing.Generate.{Digests, Algorithm, generate}
use gobol.Timeline.Point.{
  FlatOperation, avg, sum, count, min, max, Item, PointData, FlattenerPoint, MapEntry, Error,
  operation_not_mapped, hash_error, Outcome, ok, err, panicked, ◌>>=◌, map_err,
}
use gobol.Timeline.Core as Core
use gobol.Timeline.Channel.{Chan, Sent, sent, waits, send_panics, send}

-- What the flattener uses of its transport: the channel, and the conversion of a flat point.
-- `terminated` tells whether the channel `terminateChan` holds a signal.
pub record Flattener : Type 0 where
  pub hashing_algorithm : Algorithm
  pub point_map : SyncMap MapEntry
  pub channel : Chan
  pub terminated : Bool

-- hex.EncodeToString
hex_digit : ℕ → ℕ
hex_digit n = if ltb n 10 then b'0' + n else b'a' + (n - 10)

unfoldable pub encode_to_string : Bytes → GoString
unfolding hex_digit
encode_to_string [] = []
encode_to_string (b ∷ bs) = hex_digit (b / 16) ∷ hex_digit (b % 16) ∷ encode_to_string bs

-- The key of a point in the map.
unfoldable pub key_of : Digests → Algorithm → FlattenerPoint → Outcome GoString
key_of d algorithm p = do
  hash ← map_err hash_error (generate d algorithm p.hash_parameters)
  ok (encode_to_string hash)

-- (f *Flattener) Add; `entry.values` is appended to through the pointer that the map holds.
add_at : GoString → FlattenerPoint → Option MapEntry → Flattener → Flattener
add_at key p (some e) f = record f {
  point_map = store f.point_map key (record e { values = e.values ++ p.value ∷ [] });
}
add_at key p none f = record f {
  point_map = store f.point_map key (record { point_data = p.point_data; values = p.value ∷ [] });
}

unfoldable pub add : Digests → Flattener → FlattenerPoint → Outcome Flattener
unfolding add_at
add d f p = do key ← key_of d f.hashing_algorithm p; ok (add_at key p (load f.point_map key) f)

-- The loops of `flatten`.
module _ (ops : FloatOps) where
  unfoldable pub sum_from : Float64 → List Float64 → Float64
  sum_from flat_value [] = flat_value
  sum_from flat_value (v ∷ vs) = sum_from (ops.add flat_value v) vs

unfoldable pub min_from : Float64 → List Float64 → Float64
min_from flat_value [] = flat_value
min_from flat_value (v ∷ vs) = min_from (if float_lt v flat_value then v else flat_value) vs

unfoldable pub max_from : Float64 → List Float64 → Float64
max_from flat_value [] = flat_value
max_from flat_value (v ∷ vs) = max_from (if float_lt flat_value v then v else flat_value) vs

-- `entry.values[0]` panics on an empty slice.
from_first : (Float64 → List Float64 → Float64) → List Float64 → Outcome Float64
from_first f [] = panicked
from_first f (v ∷ vs) = ok (f v vs)

unfoldable pub flat_value : FloatOps → FlatOperation → List Float64 → Outcome Float64
unfolding sum_from min_from max_from from_first
flat_value ops operation values =
    if operation == avg
    then ok (ops.div (sum_from ops float_zero values) (ops.of_int (length values)))
    else if operation == sum
    then ok (sum_from ops float_zero values)
    else if operation == count
    then ok (ops.of_int (length values))
    else if operation == min
    then from_first min_from values
    else if operation == max
    then from_first max_from values
    else err (operation_not_mapped operation)

-- (f *Flattener) flatten
unfoldable pub flatten : FloatOps → MapEntry → Outcome FlattenerPoint
flatten ops e = do
  v ← flat_value ops e.operation e.values
  ok (record { point_data = e.point_data; hash_parameters = []; value = v })

-- A round of the cycle is over, or waits for room in the channel, or has panicked.
pub data Round : Type 0 where
  finished : Flattener → Round
  waiting : Round
  crashed : Round

module _ (ops : FloatOps) (to_item : FlattenerPoint → Outcome Item) where
  -- The item that an entry is sent as.
  unfoldable pub deliverable : MapEntry → Outcome Item
  unfolding flatten
  deliverable e = do new_value ← flatten ops e; to_item new_value

  -- (f *Flattener) processEntry: an error is logged, and nothing is sent.
  unfoldable pub process_entry : MapEntry → Chan → Sent
  process_entry e c = elim (deliverable e) [
    | ok item ↦ send c item
    | err _ ↦ sent c
    | panicked ↦ send_panics
  ]

  -- The `Range` of beginCycle.
  unfoldable pub flush : SyncMap MapEntry → Flattener → Round
  flush [] f = finished f
  flush ((k, e) ∷ es) f = elim (process_entry e f.channel) [
    | sent c ↦ flush es (record f { channel = c; point_map = delete f.point_map k })
    | waits ↦ waiting
    | send_panics ↦ crashed
  ]

  -- One turn of the loop of beginCycle after its wait; `none` when the loop returns.
  unfoldable pub cycle : Flattener → Option Round
  unfolding flush
  cycle f = if f.terminated then none else some (flush f.point_map f)

-- The two halves of (f *Flattener) Close: the transport's channel is closed, then the cycle is told. To
-- close a closed channel panics: that is `none`.
unfoldable pub close_transport : Flattener → Option Flattener
close_transport f = elim (Core.close f.channel) [
  | some c ↦ some (record f { channel = c })
  | none ↦ none
]

unfoldable pub signal_termination : Flattener → Flattener
signal_termination f = record f { terminated = true }

unfoldable pub close : Flattener → Option Flattener
unfolding close_transport signal_termination
close f = elim (close_transport f) [ some g ↦ some (signal_termination g) | none ↦ none ]
