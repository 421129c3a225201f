-- ===== src/Snitch/Service.antt =====
-- New, start and runtimeLoop of snitch/snitch.go. time.ParseDuration and os.Hostname are parameters.
pub mod Started
use gobol.Base.{
  ℕ, ◌==◌, not, ◌&&◌, Bool, true, false, Option, none, some, List, [], ◌∷◌, ◌++◌, map,
  if◌then◌else◌,
}
use gobol.Base.Text.{GoString, codes, str_eq}
use gobol.Base.Int.{ℤ, pos}
use gobol.Base.SyncMap.{SyncMap, load, store}
use gobol.Base.Outcome.{Outcome as GoOutcome, ok, err, panicked, ◌>>=◌}
use gobol.Snitch.Point.{Arithmetic}
use gobol.Snitch.Registry.{Stats, value_add, store_tags}

-- Settings
pub record Settings : Type 0 where
  pub address : GoString
  pub port : ℕ
  pub protocol : GoString
  pub http_timeout : GoString
  pub http_post_interval : GoString
  pub tags : List (GoString × GoString)

pub data Error : Type 0 where
  no_address : Error
  no_port : Error
  bad_protocol : Error
  bad_duration : GoString → Error
  no_ksid : Error
  no_hostname : GoString → Error

-- The part of Stats that New fills and that does not change later.
pub record Service : Type 0 where
  pub address : GoString
  pub port : ℕ
  pub proto : GoString
  pub timeout : ℤ
  pub post_int : ℤ
  pub stats : Stats

-- tags["ksid"], which is "" on a missing key
tag_of : SyncMap GoString → GoString → GoString
tag_of tags k = elim (load tags k) [ some v ↦ v | none ↦ [] ]

module _ (parse_duration : GoString → Option ℤ) where
  duration : GoString → GoOutcome Error ℤ
  duration s = elim (parse_duration s) [ some d ↦ ok d | none ↦ err (bad_duration s) ]

  -- The timeout and the interval of the posts, for HTTP only.
  durations : Settings → GoOutcome Error (ℤ × ℤ)
  unfolding duration
  durations s =
      if str_eq s.protocol (codes "http")
      then (duration s.http_timeout >>= λ t. duration s.http_post_interval >>= λ p. ok (t, p))
      else ok (pos 0, pos 0)

  checked : Settings → GoOutcome Error (Unit {0})
  checked s =
      if str_eq s.address []
      then err no_address
      else if s.port == 0
      then err no_port
      else if not (str_eq s.protocol (codes "http")) && not (str_eq s.protocol (codes "udp"))
      then err bad_protocol
      else ok tt

  tagged : SyncMap GoString → GoOutcome GoString GoString → GoOutcome Error (SyncMap GoString)
  unfolding tag_of
  tagged tags host = if str_eq (tag_of tags (codes "ksid")) [] then err no_ksid else (elim host [
    | ok h ↦ ok (store tags (codes "host") h)
    | err e ↦ err (no_hostname e)
    | panicked ↦ panicked
  ])

  -- New, but for the goroutine of start
  unfoldable pub new : GoOutcome GoString GoString → Settings → GoOutcome Error Service
  unfolding durations checked tagged store_tags
  new host s = checked s >>= λ u. durations s >>= λ d.
      tagged (store_tags s.tags []) host >>= λ tags. ok (record {
        address = s.address;
        port = s.port;
        proto = s.protocol;
        timeout = d.0;
        post_int = d.1;
        stats = record { tags = tags; points = []; jobs = [] };
      })

-- The Range of start: a job for each point that is there.
unfoldable pub start : Stats → Stats
start st = record st { jobs = st.jobs ++ map (λ e. (e.1.interval, e.0)) st.points }

-- A turn of runtimeLoop that is not told to end, with the number of goroutines
unfoldable pub runtime_turn : (GoString → Bool) → Arithmetic → ℕ → Stats → Stats
runtime_turn parses ops goroutines st =
    (value_add parses ops (codes "runtime.goroutines.count") st.tags (codes "max")
      (codes "@every 1m") false true (ops.of_int (pos goroutines)) st).0
