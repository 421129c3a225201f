-- ===== src/Snitch/Client.antt =====
-- The two clients of snitch/snitch.go. A message arrives over an unbuffered channel, so that the send of a
-- cron job and its reception are one event.
pub mod Delivery
pub mod Stuck
use gobol.Base.{
  ℕ, ◌==◌, not, ◌&&◌, Bool, true, false, Option, none, some, List, [], ◌∷◌, ◌++◌, if◌then◌else◌,
}
use gobol.Base.Int.{ℤ}
use gobol.Base.Text.{GoString}
use gobol.Snitch.Point.{Arithmetic, Message}
use gobol.Snitch.Registry.{Stats, run_job}

-- How the request of a tick ends, after the payload has been built.
pub data Post : Type 0 where
  -- http.NewRequest or client.Do returns an error
  failed : Post
  -- the server answers, with a status
  answered : ℕ → Post

-- What the select of clientHTTP receives.
pub data Event : Type 0 where
  received : Message → Event
  tick : Post → Event

-- Stats as clientHTTP sees it; `terminate` is read at the top of the loop only, and `running` says that the
-- loop waits for an event. `answers` are the payloads that were answered, each with the status.
pub record HttpClient : Type 0 where
  pub buffer : List Message
  pub terminate : Bool
  pub running : Bool
  pub answers : List (ℕ × List Message)

-- Terminate
unfoldable pub terminate : HttpClient → HttpClient
terminate c = record c { terminate = true }

-- An event; json.Marshal of the buffer fails if it fails on one of the messages.
module _ (marshals : Message → Bool) where
  all_marshal : List Message → Bool
  all_marshal [] = true
  all_marshal (m ∷ ms) = marshals m && all_marshal ms

  on_post : Post → HttpClient → HttpClient
  on_post failed c = c
  on_post (answered status) c = record c {
    buffer = [];
    answers = c.answers ++ (status, c.buffer) ∷ [];
  }

  on_event : Event → HttpClient → HttpClient
  unfolding all_marshal on_post
  on_event (received m) c = record c { buffer = c.buffer ++ m ∷ [] }
  on_event (tick p) c = if all_marshal c.buffer then on_post p c else c

check : HttpClient → HttpClient
check c = record c { running = not c.terminate }

-- A turn of the loop of clientHTTP, from an event to the next test of `terminate`
unfoldable pub http_turn : (Message → Bool) → Event → HttpClient → HttpClient
unfolding on_event check
http_turn marshals e c = if c.running then check (on_event marshals e c) else c

-- clientHTTP at its start
abbrev pub http_client : HttpClient
http_client = record { buffer = []; terminate = false; running = true; answers = [] }

-- What happens to the statistics and the client together: a cron job of a point, or a tick.
pub data Step : Type 0 where
  job : ℤ → GoString → Step
  post : Post → Step

receive : (Message → Bool) → Option Message → HttpClient → HttpClient
receive marshals none c = c
receive marshals (some m) c = http_turn marshals (received m) c

module _ (ops : Arithmetic) (marshals : Message → Bool) where
  unfoldable pub step : Step → Stats × HttpClient → Stats × HttpClient
  unfolding receive http_turn
  step (job now key) (st, c) = let (o, st') = run_job ops now key st in (st', receive marshals o c)
  step (post p) (st, c) = (st, http_turn marshals (tick p) c)

  unfoldable pub steps : List Step → Stats × HttpClient → Stats × HttpClient
  unfolding step
  steps [] s = s
  steps (e ∷ es) s = steps es (step e s)

-- A message that comes to clientUDP: whether json.Marshal takes it, and whether a dial succeeds then.
pub record Arrival : Type 0 where
  pub message : Message
  pub marshals : Bool
  pub dials : Bool

-- What is written for a message: nothing of it where json.Marshal fails.
abbrev pub payload : Arrival → Option Message
payload a = if a.marshals then some a.message else none

-- clientUDP: whether it has a connection, and the payloads that it has written.
pub record UdpClient : Type 0 where
  pub connected : Bool
  pub written : List (Option Message)

-- A turn of the loop; the errors of json.Marshal and Write are logged.
unfoldable pub udp_turn : Arrival → UdpClient → UdpClient
udp_turn a c =
    if c.connected
    then record c { written = c.written ++ payload a ∷ [] }
    else record c { connected = a.dials }

unfoldable pub udp_turns : List Arrival → UdpClient → UdpClient
unfolding udp_turn
udp_turns [] c = c
udp_turns (a ∷ arrivals) c = udp_turns arrivals (udp_turn a c)
