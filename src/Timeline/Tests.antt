-- ===== src/Timeline/Tests.antt =====
-- The theorems on the timeline at concrete values, and runs of its operations.
use gobol.Base.{
  ◌≡◌, refl, ◌+◌, ◌≤◌, true, false, [], ◌∷◌, ◌++◌, none, some, arith, length, All, Elem,
}
use gobol.Base.Text.{GoString, codes, str_eq}
use gobol.Base.Int.{pos, negsuc}
use gobol.Base.Float.{Float64, FloatOps, is_nan}
use gobol.Base.SyncMap.{load, store}
use gobol.Hashing.Value.{bool}
use gobol.Hashing.Convert.{get_byte_array, bool_to_byte_array}
use gobol.Hashing.Generate.{Digests, generate, generate_byte_array}
use gobol.Timeline.Point.{sum, max, min, Item, foreign, FlattenerPoint, MapEntry, Outcome, ok}
use gobol.Timeline.Channel.{Chan}
use gobol.Timeline.Flattener.{
  Flattener, encode_to_string, key_of, add, flat_value, flatten, deliverable, finished, crashed,
  flush, cycle, close_transport, close,
}
use gobol.Timeline.Flattener.Groups.{add_each, of_key, merge, add_each-groups}
use gobol.Timeline.Flattener.Flatten.{AtMost, flat_value-extremes}
use gobol.Timeline.Flattener.Cycle.{IsSound, items_of, cycle-delivers, close-cycle}
use gobol.Timeline.Flattener.Safety.{IsFilled, add_each-IsSound}
use gobol.Timeline.Config.{HttpConfig, DefaultConfig}

-- Additions and divisions that are no arithmetic, and digests that hand their input on.
abbrev plain_ops : FloatOps
plain_ops = record { add = λ x y. x + y; div = λ x y. x; of_int = λ n. n }

abbrev plain_digests : Digests
plain_digests = record {
  sha256 = λ b. b;
  sha1 = λ b. b;
  md5 = λ b. b;
  crc32 = λ b. b;
  shake128 = λ n b. b;
  shake256 = λ n b. b;
}

abbrev point : Float64 → FlattenerPoint
point v = record {
  point_data = record { operation = sum; timestamp = pos 9; data_channel_item = foreign 0 };
  hash_parameters = bool true ∷ [];
  value = v;
}

abbrev open_channel : Chan
open_channel = record { capacity = 2; buffer = []; closed = false }

abbrev empty_flattener : Flattener
empty_flattener = record {
  hashing_algorithm = codes "md5";
  point_map = [];
  channel = open_channel;
  terminated = false;
}

abbrev entry : MapEntry
entry = record { point_data = (point 3).point_data; values = 3 ∷ 4 ∷ [] }

abbrev filled : Flattener
filled = record empty_flattener { point_map = (codes "01", entry) ∷ [] }

-- A conversion that keeps the value.
abbrev as_number : FlattenerPoint → Outcome Item
as_number p = ok (foreign p.value)

filled_key : key_of plain_digests (codes "md5") (point 3) ≡ ok (codes "01")
unfolding key_of generate generate_byte_array get_byte_array bool_to_byte_array encode_to_string
    str_eq
filled_key = refl

two_adds : add_each plain_digests (point 3 ∷ point 4 ∷ []) empty_flattener ≡ ok filled
unfolding add key_of generate generate_byte_array get_byte_array bool_to_byte_array encode_to_string
    str_eq load store
two_adds = refl

add_each-groups_example :
    load filled.point_map (codes "01")
    ≡ merge plain_digests none
        (of_key plain_digests (codes "md5") (codes "01") (point 3 ∷ point 4 ∷ []))
unfolding load
add_each-groups_example =
    add_each-groups plain_digests (point 3 ∷ point 4 ∷ []) empty_flattener two_adds (codes "01")

numbers : (is_nan 3 ≡ false) × (is_nan 4 ≡ false)
unfolding is_nan
numbers = (refl, refl)

flat_value-extremes_example :
    ((m : Float64) × (flat_value plain_ops max (3 ∷ 4 ∷ []) ≡ ok m)
      × Elem m (3 ∷ 4 ∷ [])
      × All (λ x. AtMost x m) (3 ∷ 4 ∷ []))
    × ((m : Float64) × (flat_value plain_ops min (3 ∷ 4 ∷ []) ≡ ok m)
        × Elem m (3 ∷ 4 ∷ [])
        × All (λ x. AtMost m x) (3 ∷ 4 ∷ []))
flat_value-extremes_example = flat_value-extremes plain_ops 3 (4 ∷ []) numbers.0 (numbers.1, tt)

filled_items : deliverable plain_ops as_number entry ≡ ok (foreign 7)
unfolding deliverable flatten flat_value
filled_items = refl

sound : All (IsSound plain_ops as_number) filled.point_map
sound = (λ e. cc (e, filled_items), tt)

room : length open_channel.buffer + length (items_of plain_ops as_number filled.point_map) ≤ 2
unfolding deliverable flatten flat_value
room = omega arith

cycle-delivers_example :
    (g : Flattener) × (cycle plain_ops as_number filled ≡ some (finished g))
    × (g.channel.buffer ≡ filled.channel.buffer ++ items_of plain_ops as_number filled.point_map)
    × ((k : GoString) → load g.point_map k ≡ none)
cycle-delivers_example = cycle-delivers plain_ops as_number filled refl refl sound room

close-cycle_example :
    (g : Flattener) × (h : Flattener) × (close_transport filled ≡ some g)
    × (flush plain_ops as_number ((codes "02", entry) ∷ []) g ≡ crashed)
    × (cycle plain_ops as_number g ≡ some crashed)
    × (close filled ≡ some h)
    × (cycle plain_ops as_number h ≡ none)
    × (h.point_map ≡ (codes "01", entry) ∷ [])
    × (h.channel.buffer ≡ filled.channel.buffer)
    × (close h ≡ none)
close-cycle_example =
    close-cycle plain_ops as_number filled (codes "01") entry [] (codes "02") entry [] refl refl
      refl filled_items filled_items

filled_add :
    add plain_digests filled (point 3)
    ≡ ok (record filled { point_map = (codes "01", record entry { values = 3 ∷ 4 ∷ 3 ∷ [] }) ∷ [] })
unfolding add key_of generate generate_byte_array get_byte_array bool_to_byte_array encode_to_string
    str_eq load store
filled_add = refl

add_each-IsSound_example :
    IsFilled filled.point_map × All (IsSound plain_ops as_number) filled.point_map
add_each-IsSound_example =
    add_each-IsSound plain_ops as_number plain_digests (point 3 ∷ point 4 ∷ []) empty_flattener
      filled (λ p e. cc) tt two_adds

abbrev default : DefaultConfig
default = record {
  transport_buffer_size = pos 2;
  batch_send_interval = pos 1;
  request_timeout = pos 1;
  serializer_buffer_size = negsuc 0;
}

abbrev http_config : HttpConfig
http_config = record {
  default = default;
  service_endpoint = codes "api/put";
  method = codes "PUT";
  expected_response_status = pos 204;
  timestamp_property = codes "timestamp";
  value_property = codes "value";
}
