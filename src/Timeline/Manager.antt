-- ===== src/Timeline/Manager.antt =====
-- timeline/manager.go: the manager of a transport, with or without a flattener.
pub mod Sends
use gobol.Base.{
  ap, ◌∙◌, ◌≡◌, ◌≢◌, refl, ℕ, ◌<◌, Bool, true, false, not, List, [], ◌∷◌, ◌++◌, map, Option, none,
  some, if◌then◌else◌, arith, ◌==◌, length,
}
use gobol.Base.Text.{GoString}
use gobol.Base.Int.{ℤ, pos, negsuc}
use gobol.Base.Float.{Float64}
use gobol.Hashing.Value.{Value}
use gobol.Hashing.Generate.{Digests}
use gobol.Timeline.Point.{
  FlatOperation, JsonItem, TsdbItem, Item, json, json_ptr, tsdb, tsdb_ptr, FlattenerPoint, Error,
  transport_required, flattener_required, no_backend, no_http, no_opentsdb, casting_item, Outcome,
  ok, err, panicked, ◌>>=◌,
}
use gobol.Timeline.Channel.{Chan, Sent, sent, waits, send_panics, send}
use gobol.Timeline.Config.{HttpConfig}
use gobol.Timeline.Http.Convert as Http
use gobol.Timeline.Http.Transfer.{Backend}
use gobol.Timeline.OpenTsdb.Convert as OpenTsdb
use gobol.Timeline.OpenTsdb.Connection as Connection
use gobol.Timeline.Core as Core
use gobol.Timeline.Flattener.{Flattener, add}
use gobol.Timeline.Flattener as Flat

-- The two implementations of Transport.
pub data Kind : Type 0 where
  http : HttpConfig → Kind
  opentsdb : Kind

-- transportType. In the constant block `typeOpenTSDB` has no expression of its own, so that it repeats
-- the one above it, `transportType = 0`.
abbrev pub TransportType : Type 0
TransportType = ℕ

abbrev pub type_http : TransportType
type_http = 0

abbrev pub type_opentsdb : TransportType
type_opentsdb = 0

-- MatchType
unfoldable pub match_type : Kind → TransportType → Bool
match_type (http c) tt' = tt' == type_http
match_type opentsdb tt' = tt' == type_opentsdb

-- DataChannelItemToFlattenedPoint and FlattenedPointToDataChannelItem
abbrev pub to_point : Kind → ℤ → FlatOperation → Item → Outcome FlattenerPoint
to_point (http c) = Http.to_point c
to_point opentsdb = OpenTsdb.to_point

-- A manager of a transport alone, and one of a flattener; the flattener has the transport's channel.
pub data Manager : Type 0 where
  plain : Kind → Chan → Manager
  flattening : Kind → Flattener → Manager

abbrev pub kind_of : Manager → Kind
kind_of (plain k c) = k
kind_of (flattening k f) = k

abbrev pub channel_of : Manager → Chan
channel_of (plain k c) = c
channel_of (flattening k f) = f.channel

abbrev pub set_channel : Manager → Chan → Manager
set_channel (plain k c) c' = plain k c'
set_channel (flattening k f) c' = flattening k (record f { channel = c' })

-- NewManager; the transport's ConfigureBackend is an argument.
unfoldable pub new_manager :
    (Kind → Backend → Outcome (Unit {0})) → Option (Kind × Chan) → Option Backend → Outcome Manager
new_manager configure none backend = err transport_required
new_manager configure (some (k, c)) none = err no_backend
new_manager configure (some (k, c)) (some b) = do _ ← configure k b; ok (plain k c)

-- NewManagerF
unfoldable pub new_manager_f :
    (Kind → Backend → Outcome (Unit {0}))
    → Option (Kind × Flattener)
    → Option Backend
    → Outcome Manager
new_manager_f configure none backend = err flattener_required
new_manager_f configure (some (k, f)) none = err no_backend
new_manager_f configure (some (k, f)) (some b) = do _ ← configure k b; ok (flattening k f)

-- A send to the data channel; `none` while it waits for room.
unfoldable pub after_send : Manager → Sent → Outcome (Option Manager)
after_send m (sent c) = ok (some (set_channel m c))
after_send m waits = ok none
after_send m send_panics = panicked

-- (m *Manager) SendHTTP
unfoldable pub send_http : Manager → GoString → List Value → Outcome (Option Manager)
unfolding match_type after_send
send_http m schema_name parameters =
    if not (match_type (kind_of m) type_http)
    then err no_http
    else after_send m
        (send (channel_of m) (json (record { name = schema_name; parameters = parameters })))

-- if timestamp == 0 { timestamp = time.Now().Unix() }
stamp : ℤ → ℤ → ℤ
stamp now (pos n) = if n == 0 then now else pos n
stamp now (negsuc n) = negsuc n

-- (m *Manager) SendOpenTSDB
unfoldable pub send_opentsdb :
    ℤ → Manager → Float64 → ℤ → GoString → List Value → Outcome (Option Manager)
unfolding match_type after_send stamp
send_opentsdb now m value timestamp metric tags =
    if not (match_type (kind_of m) type_opentsdb)
    then err no_opentsdb
    else after_send m (
        send (channel_of m) (
          tsdb (record {
            metric = metric;
            tags = tags;
            timestamp = stamp now timestamp;
            value = value;
          })))

-- m.flattener.Add: a nil flattener is a panic.
unfoldable pub add_flattened : Digests → Manager → FlattenerPoint → Outcome Manager
add_flattened d (plain k c) p = panicked
add_flattened d (flattening k f) p = do g ← add d f p; ok (flattening k g)

-- (m *Manager) FlattenHTTP
unfoldable pub flatten_http :
    Digests → ℤ → Manager → FlatOperation → GoString → List Value → Outcome Manager
unfolding add_flattened
flatten_http d now m operation name parameters = do
  p ←
      to_point (kind_of m) now operation
        (json_ptr (record { name = name; parameters = parameters }))
  add_flattened d m p

-- (m *Manager) FlattenOpenTSDB
unfoldable pub flatten_opentsdb :
    Digests → ℤ → Manager → FlatOperation → Float64 → ℤ → GoString → List Value → Outcome Manager
unfolding add_flattened stamp
flatten_opentsdb d now m operation value timestamp metric tags = do
  p ← to_point (kind_of m) now operation (
      tsdb_ptr
        (record { metric = metric; tags = tags; timestamp = stamp now timestamp; value = value }))
  add_flattened d m p

-- (m *Manager) SerializeHTTP and SerializeOpenTSDB, with the transport's serializer as an argument.
unfoldable pub serialize_http :
    (Kind → Item → Outcome GoString) → Manager → GoString → List Value → Outcome GoString
serialize_http serialize m schema_name parameters =
    serialize (kind_of m) (json (record { name = schema_name; parameters = parameters }))

unfoldable pub serialize_opentsdb :
    (Kind → Item → Outcome GoString)
    → Manager
    → Float64
    → ℤ
    → GoString
    → List Value
    → Outcome GoString
serialize_opentsdb serialize m value timestamp metric tags =
    serialize (kind_of m)
      (tsdb (record { metric = metric; tags = tags; timestamp = timestamp; value = value }))

-- (m *Manager) Shutdown; closing a closed channel panics.
unfoldable pub shutdown : Manager → Outcome Manager
shutdown (flattening k f) = elim (Flat.close f) [ some f' ↦ ok (flattening k f') | none ↦ panicked ]
shutdown (plain k c) = elim (Core.close c) [ some c' ↦ ok (plain k c') | none ↦ panicked ]
