-- ===== src/Snitch/Point.antt =====
-- snitch/custom_point.go and the functions of snitch/snitch_dynamic.go and snitch/point_funcs.go that work
-- on one point. Each call on a point is one step where no other call on it overlaps; Run, which may wait in
-- the middle, is modelled in its two parts too.
pub mod Round
pub mod Lost
use gobol.Base.{
  ℕ, ◌+◌, ◌-◌, ◌^◌, suc, zero, Bool, true, false, not, ◌&&◌, ◌||◌, List, [], ◌∷◌, Option, none,
  some, if◌then◌else◌, ◌==◌,
}
use gobol.Base.Text.{GoString, codes, str_eq}
use gobol.Base.Int.{ℤ, pos, negsuc}
use gobol.Base.Float.{Float64, float_lt, float_eq, float_zero}
use gobol.Base.SyncMap.{SyncMap}

pub record CustomPoint : Type 0 where
  pub metric : GoString
  pub tags : SyncMap GoString
  pub value : Float64
  pub val_null : Bool
  pub timestamp : ℤ
  pub count : ℤ
  pub interval : GoString
  pub aggregation : GoString
  pub keep_value : Bool
  pub send_on_null : Bool

pub record Message : Type 0 where
  pub metric : GoString
  pub tags : SyncMap GoString
  pub value : Float64
  pub timestamp : ℤ

-- The arithmetic of the hardware: addition, division, and the conversion of an int64.
pub record Arithmetic : Type 0 where
  pub add : Float64 → Float64 → Float64
  pub div : Float64 → Float64 → Float64
  pub of_int : ℤ → Float64

-- x + 1 on int64
next_int : ℤ → ℤ
next_int (pos n) = if n + 1 == 2 ^ 63 then negsuc (2 ^ 63 - 1) else pos (n + 1)
next_int (negsuc zero) = pos 0
next_int (negsuc (suc n)) = negsuc n

-- (p *CustomPoint) SetCount, SetValue, SetTimestamp and SetValueNull
abbrev pub set_count : ℤ → CustomPoint → CustomPoint
set_count i p = record p { count = i }

abbrev pub set_value : Float64 → CustomPoint → CustomPoint
set_value v p = record p { value = v; val_null = false }

abbrev pub set_timestamp : ℤ → CustomPoint → CustomPoint
set_timestamp t p = record p { timestamp = t }

abbrev pub set_value_null : CustomPoint → CustomPoint
set_value_null p = record p { value = float_zero; val_null = true }

-- (p *CustomPoint) ValueAdd
unfoldable pub value_add : Arithmetic → Float64 → CustomPoint → CustomPoint
unfolding next_int
value_add ops v p = record p {
  value = ops.add p.value v;
  count = next_int p.count;
  val_null = false;
}

-- The switch of (st *Stats) ValueAdd.
aggregate_by : GoString → Arithmetic → Float64 → CustomPoint → CustomPoint
unfolding value_add
aggregate_by aggregation ops v p =
    if str_eq aggregation (codes "avg")
    then value_add ops v p
    else if str_eq aggregation (codes "sum")
    then value_add ops v p
    else if str_eq aggregation (codes "max")
    then (if float_lt p.value v then set_value v p else p)
    else if str_eq aggregation (codes "min")
    then (if p.val_null then set_value v p else if float_lt v p.value then set_value v p else p)
    else value_add ops v p

unfoldable pub aggregate : Arithmetic → Float64 → CustomPoint → CustomPoint
unfolding aggregate_by
aggregate ops v p = aggregate_by p.aggregation ops v p

is_zero : ℤ → Bool
is_zero (pos n) = n == 0
is_zero (negsuc n) = false

-- The function `pre` of a point; it tells whether the point is sent.
unfoldable pub pre : Arithmetic → CustomPoint → Bool × CustomPoint
unfolding is_zero
pre ops p =
    if not p.send_on_null && p.val_null
    then (false, p)
    else if str_eq p.aggregation (codes "avg")
    then (if not (float_eq p.value float_zero) && not (is_zero p.count)
        then (true, set_value (ops.div p.value (ops.of_int p.count)) p)
        else (true, p))
    else (true, p)

-- The function `post` of a point.
unfoldable pub post : CustomPoint → CustomPoint
post p =
    if not (str_eq p.aggregation []) || not p.keep_value
    then set_value_null (set_count (pos 0) (set_value float_zero p))
    else p

stamp : ℤ → CustomPoint → ℤ
unfolding is_zero
stamp now p = if is_zero p.timestamp then now else p.timestamp

message_of : ℤ → CustomPoint → Message
unfolding stamp
message_of now p = record {
  metric = p.metric;
  tags = p.tags;
  value = p.value;
  timestamp = stamp now p;
}

-- The part of (p *CustomPoint) Run up to the send, which may wait: the message, and the point that `post`
-- then works on; `now` is the time in milliseconds.
unfoldable pub collect : Arithmetic → ℤ → CustomPoint → Option Message × CustomPoint
unfolding pre message_of
collect ops now p = let r = pre ops p in (if r.0 then some (message_of now r.1) else none, r.1)

-- (p *CustomPoint) Run, with no call on the point between the send and `post`
unfoldable pub run : Arithmetic → ℤ → CustomPoint → Option Message × CustomPoint
unfolding collect post
run ops now p = let r = collect ops now p in (r.0, post r.1)
