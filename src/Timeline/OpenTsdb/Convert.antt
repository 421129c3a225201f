-- ===== src/Timeline/OpenTsdb/Convert.antt =====
-- OpenTSDBTransport: data channel items to points of the flattener, and back.
use gobol.Base.{◌≡◌, refl, true, ◌∷◌, if◌then◌else◌, arith}
use gobol.Base.Int.{ℤ, pos, int_lt}
use gobol.Base.Float.{Float64}
use gobol.Hashing.Value.{str, uint, bits8}
use gobol.Timeline.Point.{
  FlatOperation, TsdbItem, Item, tsdb, tsdb_ptr, FlattenerPoint, casting_instance, casting_point,
  Outcome, ok, err,
}
use gobol.Timeline.Config.{not_positive}

-- `item.Timestamp` is set through the pointer; `now` is the time in seconds.
stamped : ℤ → TsdbItem → TsdbItem
stamped now item = if not_positive item.timestamp then record item { timestamp = now } else item

-- DataChannelItemToFlattenedPoint
unfoldable pub to_point : ℤ → FlatOperation → Item → Outcome FlattenerPoint
unfolding stamped
to_point now operation (tsdb_ptr item) =
    let i : TsdbItem = stamped now item in
    ok (record {
      point_data = record {
        operation = operation;
        timestamp = i.timestamp;
        data_channel_item = tsdb i;
      };
      hash_parameters = uint bits8 operation ∷ str i.metric ∷ i.tags;
      value = i.value;
    })
to_point now operation _ = err casting_instance

item_of : Float64 → Item → Outcome Item
item_of v (tsdb item) = ok (tsdb (record item { value = v }))
item_of v _ = err casting_point

-- FlattenedPointToDataChannelItem
unfoldable pub to_item : FlattenerPoint → Outcome Item
unfolding item_of
to_item p = item_of p.value p.data_channel_item

-- An item with a positive timestamp becomes a point of its value that is hashed by the operation, the
-- metric and the tags, whatever the time is, and the point with another value gives the item back with
-- that value.
pub to_item-to_point :
    (now : ℤ) (operation : FlatOperation) (item : TsdbItem) (v : Float64)
    → int_lt (pos 0) item.timestamp ≡ true
    → (p : FlattenerPoint) × (to_point now operation (tsdb_ptr item) ≡ ok p)
      × (p.value ≡ item.value)
      × (p.hash_parameters ≡ uint bits8 operation ∷ str item.metric ∷ item.tags)
      × (to_item (record p { value = v }) ≡ ok (tsdb (record item { value = v })))
unfolding to_point to_item
to_item-to_point now operation item v h = (
  record {
    point_data = record {
      operation = operation;
      timestamp = item.timestamp;
      data_channel_item = tsdb item;
    };
    hash_parameters = uint bits8 operation ∷ str item.metric ∷ item.tags;
    value = item.value;
  },
  ground arith,
  refl,
  refl,
  refl,
)
