-- ===== src/Timeline/Point.antt =====
-- The items of the data channel, the points of the flattener, and the errors of the package.
use gobol.Base.{ℕ, List}
use gobol.Base.Text.{GoString}
use gobol.Base.Int.{ℤ}
use gobol.Base.Float.{Float64}
use gobol.Base.Outcome.{Outcome as GoOutcome}
use gobol.Hashing.Value.{Value, HashError}
pub use gobol.Base.Outcome.{ok, err, panicked, ◌>>=◌, map_err}

-- FlatOperation, a uint8: a caller may convert any number to it.
abbrev pub FlatOperation : Type 0
FlatOperation = ℕ

abbrev pub avg : FlatOperation
avg = 0

abbrev pub sum : FlatOperation
sum = 1

abbrev pub count : FlatOperation
count = 2

abbrev pub max : FlatOperation
max = 3

abbrev pub min : FlatOperation
min = 4

-- serializer/json.ArrayItem
pub record JsonItem : Type 0 where
  pub name : GoString
  pub parameters : List Value

-- serializer/opentsdb.ArrayItem
pub record TsdbItem : Type 0 where
  pub metric : GoString
  pub tags : List Value
  pub timestamp : ℤ
  pub value : Float64

-- What an `interface{}` of the data channel holds: a struct, a pointer to one, or another type.
pub data Item : Type 0 where
  json json_ptr : JsonItem → Item
  tsdb tsdb_ptr : TsdbItem → Item
  foreign : ℕ → Item

-- flattenerPointData
pub record PointData : Type 0 where
  pub operation : FlatOperation
  pub timestamp : ℤ
  pub data_channel_item : Item

pub record FlattenerPoint : Type 0 where
  pub point_data : PointData
  pub open point_data use *
  pub hash_parameters : List Value
  pub value : Float64

pub record MapEntry : Type 0 where
  pub point_data : PointData
  pub open point_data use *
  pub values : List Float64

pub data Error : Type 0 where
  transport_required flattener_required no_backend resolve_error null_configuration : Error
  invalid_buffer_size invalid_serializer_buffer_size invalid_interval invalid_timeout : ℤ → Error
  invalid_read_timeout invalid_reconnection_timeout : ℤ → Error
  no_timestamp_property no_value_property : Error
  casting_instance casting_item casting_point : Error
  not_a_property not_a_float64 not_an_int64 : Value → Error
  operation_not_mapped : FlatOperation → Error
  hash_error : HashError → Error
  no_http no_opentsdb : Error
  serializer_error request_error client_error unexpected_status backend_error : Error

abbrev pub Outcome : Type 0 → Type 0
Outcome = GoOutcome Error
