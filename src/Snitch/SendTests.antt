-- ===== src/Snitch/SendTests.antt =====
-- The theorems on the clients and on the start of the statistics at concrete values, and runs of New.
use gobol.Base.{
  not, ◌==◌, All, Elem, inl, ◌≡◌, refl, ◌+◌, Bool, true, false, Option, some, List, [], ◌∷◌, ◌++◌,
  map,
}
use gobol.Base.Text.{GoString, codes, str_eq}
use gobol.Base.Int.{ℤ, pos}
use gobol.Base.Float.{Float64}
use gobol.Base.SyncMap.{keys, load, store}
use gobol.Base.Outcome.{ok, err}
use gobol.Snitch.Point.{CustomPoint, Arithmetic, Message}
use gobol.Snitch.Registry.{Stats, store_tags}
use gobol.Snitch.Service.{Settings, bad_protocol, no_ksid, new, start}
use gobol.Snitch.Service.Started.{start-doubles}
use gobol.Snitch.Client.{
  failed, answered, HttpClient, http_client, Step, job, post, steps, Arrival, udp_turns,
}
use gobol.Snitch.Client.Delivery.{delivered, messages, steps-delivers, udp_turns-loses}
use gobol.Snitch.Client.Stuck.{steps-stuck}

abbrev plain : Arithmetic
plain = record { add = λ x y. x + y; div = λ x y. x; of_int = λ i. 0 }

-- A point that has a value.
abbrev point : CustomPoint
point = record {
  metric = codes "m";
  tags = [];
  value = 7;
  val_null = false;
  timestamp = pos 0;
  count = pos 1;
  interval = codes "@every 1m";
  aggregation = codes "sum";
  keep_value = false;
  send_on_null = false;
}

abbrev stats : Stats
stats = record {
  tags = [];
  points = (codes "m", point) ∷ [];
  jobs = (codes "@every 1m", codes "m") ∷ [];
}

abbrev sent : Float64 → Message
sent value = record { metric = codes "m"; tags = []; value = value; timestamp = pos 0 }

-- A job, a tick whose post fails, and a second job, which has no value to send.
abbrev course : List Step
course = job (pos 1) (codes "m") ∷ post failed ∷ job (pos 2) (codes "m") ∷ []

all_marshal : (ms : List Message) → All (λ m. true ≡ true) ms
all_marshal [] = tt
all_marshal (m ∷ ms) = (refl, all_marshal ms)

steps-delivers_example :
    ((steps plain (λ m. true) (course ++ post (answered 204) ∷ []) (stats, http_client)).1.buffer
      ≡ [])
    × (delivered
          (steps plain
            (λ m. true)
            (course ++ post (answered 204) ∷ [])
            (stats, http_client)).1.answers
        ≡ messages plain course stats)
steps-delivers_example =
    steps-delivers plain (λ m. true) course 204 stats (all_marshal (messages plain course stats))

-- The value 7 stands for one that is no number.
abbrev marshals : Message → Bool
marshals m = not (m.value == 7)

abbrev filled : HttpClient
filled = record http_client { buffer = sent 7 ∷ [] }

steps-stuck_example :
    ((steps plain marshals course (stats, filled)).1.answers ≡ [])
    × Elem (sent 7) (steps plain marshals course (stats, filled)).1.buffer
steps-stuck_example = steps-stuck marshals (sent 7) refl plain course stats filled (inl refl)

start-doubles_example : map (λ j. j.1) (start stats).jobs ≡ keys stats.points ++ keys stats.points
start-doubles_example = start-doubles stats refl

abbrev arrivals : List Arrival
arrivals =
    record { message = sent 1; marshals = true; dials = false }
    ∷ record { message = sent 2; marshals = true; dials = true }
    ∷ record { message = sent 3; marshals = true; dials = true }
    ∷ []

-- Of three messages, the last is written.
lost :
    (udp_turns arrivals (record { connected = false; written = [] })).written ≡ some (sent 3) ∷ []
lost = udp_turns-loses arrivals

abbrev settings : GoString → GoString → Settings
settings protocol key = record {
  address = codes "localhost";
  port = 8080;
  protocol = protocol;
  http_timeout = codes "1s";
  http_post_interval = codes "10s";
  tags = (key, codes "a") ∷ [];
}

abbrev second : GoString → Option ℤ
second s = some (pos 1000000000)

refused_protocol :
    new second (ok (codes "h")) (settings (codes "tcp") (codes "ksid")) ≡ err bad_protocol
unfolding new str_eq
refused_protocol = refl

refused_tags : new second (ok (codes "h")) (settings (codes "http") (codes "k")) ≡ err no_ksid
unfolding new str_eq store_tags store load
refused_tags = refl

accepted :
    new second (ok (codes "h")) (settings (codes "udp") (codes "ksid"))
    ≡ ok (record {
      address = codes "localhost";
      port = 8080;
      proto = codes "udp";
      timeout = pos 0;
      post_int = pos 0;
      stats = record {
        tags = (codes "ksid", codes "a") ∷ (codes "host", codes "h") ∷ [];
        points = [];
        jobs = [];
      };
    })
unfolding new str_eq store_tags store load
accepted = refl
