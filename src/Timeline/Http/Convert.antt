-- ===== src/Timeline/Http/Convert.antt =====
-- HTTPTransport: data channel items to points of the flattener, and back.
use gobol.Base.{Bool, true, false, not, ◌&&◌, ◌||◌, List, [], ◌∷◌, ◌++◌, if◌then◌else◌}
use gobol.Base.Text.{GoString, str_eq}
use gobol.Base.Int.{ℤ, pos}
use gobol.Base.Float.{Float64, float_zero}
use gobol.Hashing.Value.{Value, str, int, uint, float, bits8, bits64}
use gobol.Timeline.Config.{HttpConfig}
use gobol.Timeline.Point.{
  FlatOperation, Item, json, json_ptr, FlattenerPoint, casting_instance, casting_point,
  not_a_property, not_a_float64, not_an_int64, Outcome, ok, err, panicked, ◌>>=◌,
}

-- The variables of the loop of DataChannelItemToFlattenedPoint; `parameters` is hashParameters[2:].
pub record Scan : Type 0 where
  pub value_found : Bool
  pub timestamp_found : Bool
  pub value : Float64
  pub timestamp : ℤ
  pub parameters : List Value

abbrev pub empty_scan : Scan
empty_scan = record {
  value_found = false;
  timestamp_found = false;
  value = float_zero;
  timestamp = pos 0;
  parameters = [];
}

-- item.Parameters[i].(string)
as_string : Value → Outcome GoString
as_string (str s) = ok s
as_string v = err (not_a_property v)

-- item.Parameters[i+1].(float64), where the list begins at i+1; no such index is a panic.
as_float64 : Value → Outcome Float64
as_float64 (float bits64 x) = ok x
as_float64 v = err (not_a_float64 v)

as_int64 : Value → Outcome ℤ
as_int64 (int bits64 n) = ok n
as_int64 v = err (not_an_int64 v)

-- Where the loop stands: at an even or an odd index, or at the index i+1 that it reads for a key.
pub data Mode : Type 0 where
  even odd take_value take_timestamp : Mode

abbrev pub keep : Value → Scan → Scan
keep v s = record s { parameters = s.parameters ++ v ∷ [] }

-- An even index while a property is missing.
on_key : HttpConfig → GoString → Value → Scan → Mode × Scan
on_key c key v s =
    if not s.value_found && str_eq key c.value_property
    then (take_value, record s { value_found = true })
    else if not s.timestamp_found && str_eq key c.timestamp_property
    then (take_timestamp, record s { timestamp_found = true })
    else (odd, keep v s)

unfoldable pub step : HttpConfig → Value → Mode → Scan → Outcome (Mode × Scan)
unfolding on_key as_string as_float64 as_int64
step c v even s =
    if not s.value_found || not s.timestamp_found
    then (do key ← as_string v; ok (on_key c key v s))
    else ok (odd, keep v s)
step c v odd s = ok (even, keep v s)
step c v take_value s = do x ← as_float64 v; ok (even, record s { value = x })
step c v take_timestamp s = do n ← as_int64 v; ok (even, record s { timestamp = n })

-- The loop over the parameters; item.Parameters[i+1] panics where the list ends at a key.
unfoldable pub scan : HttpConfig → List Value → Mode → Scan → Outcome Scan
unfolding step
scan c [] even s = ok s
scan c [] odd s = ok s
scan c [] take_value s = panicked
scan c [] take_timestamp s = panicked
scan c (v ∷ vs) mode s = step c v mode s >>= λ r. scan c vs r.0 r.1

-- DataChannelItemToFlattenedPoint; `now` is the time in seconds.
unfoldable pub point_of : FlatOperation → ℤ → GoString → Scan → FlattenerPoint
point_of operation now name s = record {
  point_data = record {
    operation = operation;
    timestamp = if s.timestamp_found then s.timestamp else now;
    data_channel_item = json (record { name = name; parameters = s.parameters });
  };
  hash_parameters = str name ∷ uint bits8 operation ∷ s.parameters;
  value = s.value;
}

unfoldable pub to_point : HttpConfig → ℤ → FlatOperation → Item → Outcome FlattenerPoint
unfolding point_of
to_point c now operation (json_ptr item) = do
  s ← scan c item.parameters even empty_scan
  ok (point_of operation now item.name s)
to_point c now operation _ = err casting_instance

-- FlattenedPointToDataChannelItem
item_of : HttpConfig → FlattenerPoint → Item → Outcome Item
item_of c p (json item) = ok (
    json (record item {
      parameters =
          item.parameters
          ++ str c.timestamp_property
            ∷ int bits64 p.timestamp
            ∷ str c.value_property
            ∷ float bits64 p.value
            ∷ [];
    }))
item_of c p _ = err casting_point

unfoldable pub to_item : HttpConfig → FlattenerPoint → Outcome Item
unfolding item_of
to_item c p = item_of c p p.data_channel_item
