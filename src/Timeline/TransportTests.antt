-- ===== src/Timeline/TransportTests.antt =====
-- The theorems on the transports and the manager at concrete values.
use gobol.Base.{
  ◌⊎◌, ◌≡◌, ◌≢◌, refl, Bool, true, false, List, [], ◌∷◌, ℕ, Option, none, some, if◌then◌else◌,
  arith, All,
}
use gobol.Base.Text.{GoString, codes, str_eq, itoa}
use gobol.Base.Int.{pos, int_lt, int_itoa}
use gobol.Hashing.Value.{Value, str, int, uint, float, bool, bits8, bits64}
use gobol.Timeline.Point.{
  sum, max, JsonItem, TsdbItem, json, json_ptr, tsdb, tsdb_ptr, foreign, FlattenerPoint,
  casting_item, Outcome, ok, err,
}
use gobol.Timeline.Channel.{Chan}
use gobol.Timeline.Config.{HttpConfig}
use gobol.Timeline.Core.{idle, batch, turn, turn-open}
use gobol.Timeline.Http.Convert as Http
use gobol.Timeline.Http.Scan.{flat, IsPlain}
use gobol.Timeline.Http.Parameters.{with_tags, to_item-with_tags}
use gobol.Timeline.Http.Transfer.{Backend, ServiceUrl, Environment, response}
use gobol.Timeline.OpenTsdb.Convert as Tsdb
use gobol.Timeline.OpenTsdb.Connection as Connection
use gobol.Timeline.OpenTsdb.Recovery as Recovery
use gobol.Timeline.Manager.{Manager, plain, opentsdb, send_http, channel_of}
use gobol.Timeline.Manager.Sends.{put, item, send_http-spoils}

abbrev config : HttpConfig
config = record {
  default = record {
    transport_buffer_size = pos 2;
    batch_send_interval = pos 1;
    request_timeout = pos 1;
    serializer_buffer_size = pos 1;
  };
  service_endpoint = codes "api/put";
  method = codes "PUT";
  expected_response_status = pos 204;
  timestamp_property = codes "timestamp";
  value_property = codes "value";
}

-- The tag of the examples.
abbrev tag : List (GoString × Value)
tag = (codes "k", bool true) ∷ []

k-ne-value : codes "k" ≢ codes "value"
k-ne-value e = cc

k-ne-timestamp : codes "k" ≢ codes "timestamp"
k-ne-timestamp e = cc

timestamp-ne-value : codes "timestamp" ≢ codes "value"
timestamp-ne-value e = cc

IsPlain-tag : All (λ p. IsPlain config false false p.0) tag
IsPlain-tag = ((λ e. k-ne-value, λ e. k-ne-timestamp), tt)

abbrev channel : Chan
channel = record { capacity = 2; buffer = []; closed = false }

turn-open_example :
    let c = put channel (foreign 1) in
    (((c.buffer ≡ []) × ((turn c).0 ≡ idle)) ⊎ ((c.buffer ≢ []) × ((turn c).0 ≡ batch c.buffer)))
    × ((turn c).1 ≡ channel)
turn-open_example = turn-open (put channel (foreign 1)) refl

to_item-with_tags_example :
    (p : FlattenerPoint) × (Http.to_point config (pos 9) sum (
        json_ptr (record {
          name = codes "n";
          parameters = with_tags config true tag 5 [] (pos 7) (bool true ∷ []);
        }))
      ≡ ok p)
    × (p.value ≡ 5)
    × (p.timestamp ≡ pos 7)
    × (p.hash_parameters
        ≡ str (codes "n") ∷ uint bits8 sum ∷ str (codes "k") ∷ bool true ∷ bool true ∷ [])
    × (Http.to_item config p
        ≡ ok (
            json (record {
              name = codes "n";
              parameters =
                  str (codes "k")
                  ∷ bool true
                  ∷ bool true
                  ∷ str (codes "timestamp")
                  ∷ int bits64 (pos 7)
                  ∷ str (codes "value")
                  ∷ float bits64 5
                  ∷ [];
            })))
to_item-with_tags_example =
    to_item-with_tags config (pos 9) sum (codes "n") true tag [] 5 (pos 7) (bool true ∷ [])
      (IsPlain-tag, tt, (λ e. timestamp-ne-value))

abbrev url : ServiceUrl
url = record { backend = record { host = codes "h"; port = pos 80 }; endpoint = codes "api/put" }

-- A service that accepts all it is sent.
abbrev accepting : Environment
accepting = record {
  serialize_array = λ points. ok (codes "[]");
  post = λ method to payload. response (pos 204) true;
}

abbrev json_item : JsonItem
json_item = record { name = codes "n"; parameters = flat tag }

abbrev tsdb_item : TsdbItem
tsdb_item = record { metric = codes "m"; tags = bool true ∷ []; timestamp = pos 7; value = 5 }

positive : int_lt (pos 0) (pos 7) ≡ true
unfolding int_lt
positive = refl

converted_back :
    (p : FlattenerPoint) × (Tsdb.to_point (pos 9) max (tsdb_ptr tsdb_item) ≡ ok p)
    × (p.value ≡ 5)
    × (p.hash_parameters ≡ uint bits8 max ∷ str (codes "m") ∷ bool true ∷ [])
    × (Tsdb.to_item (record p { value = 6 }) ≡ ok (tsdb (record tsdb_item { value = 6 })))
converted_back = Tsdb.to_item-to_point (pos 9) max tsdb_item 6 positive

-- An exchange whose write has the given result.
abbrev exchange : Bool → Connection.Exchange
exchange w = record {
  set_read_deadline = true;
  read = Connection.net_error true;
  set_write_deadline = true;
  write = w;
}

abbrev failing : Connection.Turn
failing = record {
  exchange = exchange false;
  dials =
      record { dial_tcp = false; set_deadline = true }
      ∷ record { dial_tcp = true; set_deadline = true }
      ∷ [];
}

abbrev writing : Connection.Turn
writing = record { exchange = exchange true; dials = [] }

failing-Reconnects : Connection.Reconnects failing
unfolding Connection.write_payload Connection.retry_connect
failing-Reconnects = (refl, refl)

writing-writes : Connection.write_payload writing.exchange ≡ true
unfolding Connection.write_payload
writing-writes = refl

-- A transport whose address is found in a table of one entry.
abbrev backend : Backend
backend = record { host = codes "tsdb"; port = pos 4242 }

abbrev resolve : GoString → Option ℕ
resolve s = if str_eq s (codes "tsdb:4242") then some 7 else none

finds : resolve (Recovery.host_port backend) ≡ some 7
unfolding Recovery.host_port str_eq int_itoa itoa
finds = refl

connects : Connection.retry_connect failing.dials ≡ true
unfolding Connection.retry_connect
connects = refl

configure_backend-transfer_example :
    let serialize : List TsdbItem → Outcome GoString = λ points. ok (codes "put") in
    let turns = failing ∷ writing ∷ [] in
    let (result, t) =
      Recovery.configure_backend resolve (some backend) failing.dials Recovery.fresh in
    (Recovery.transfer {Address = ℕ} serialize turns Recovery.fresh (tsdb tsdb_item ∷ [])
      ≡ ok (some Recovery.recovered))
    × (result ≡ ok (some tt))
    × (t.address ≡ some 7)
    × (Recovery.transfer serialize turns t (tsdb tsdb_item ∷ []) ≡ ok (some (Recovery.written 1)))
configure_backend-transfer_example =
    Recovery.configure_backend-transfer resolve (λ points. ok (codes "put")) (tsdb_item ∷ [])
      backend failing.dials Recovery.fresh (failing ∷ []) writing [] refl finds connects
      (failing-Reconnects, tt) writing-writes

abbrev waiting_channel : Chan
waiting_channel = put channel (tsdb tsdb_item)

send_http-spoils_example :
    (m : Manager) × (send_http (plain opentsdb waiting_channel) (codes "n") (flat tag)
      ≡ ok (some m))
    × ((turn (channel_of m)).0 ≡ batch (tsdb tsdb_item ∷ item (codes "n") (flat tag) ∷ []))
    × (Connection.transfer_data
          (λ points. ok (codes "put"))
          (writing ∷ [])
          (tsdb tsdb_item ∷ item (codes "n") (flat tag) ∷ [])
        ≡ err casting_item)
send_http-spoils_example =
    send_http-spoils waiting_channel (codes "n") (flat tag) (tsdb_item ∷ [])
      (λ points. ok (codes "put")) (writing ∷ []) refl (omega arith) refl
