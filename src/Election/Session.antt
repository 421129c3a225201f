-- ===== src/Election/Session.antt =====
-- The goroutine of connect of election/election.go: the events of the ZooKeeper session, and the attempts to
-- connect again after a lost session.
pub mod Restart
mod Tests
use gobol.Base.{
  ℕ, ◌+◌, leb, length, Bool, true, false, ◌||◌, Option, none, some, List, [], ◌∷◌, if◌then◌else◌,
}
use gobol.Base.Text.{GoString}
use gobol.Election.{
  Outcome, ok, err, panicked, Client, Config, disconnected, Manager, and_then, signal,
}
use gobol.Election.Run.{connect, disconnect, start}

-- zk.State
pub data SessionState : Type 0 where
  connected : SessionState
  connected_read_only : SessionState
  sasl_authenticated : SessionState
  has_session : SessionState
  auth_failed : SessionState
  session_disconnected : SessionState
  expired : SessionState
  other_state : SessionState

-- zk.Event: whether it is a session event, and its state
pub record Event : Type 0 where
  pub is_session : Bool
  pub state : SessionState

unfoldable pub is_lost : Event → Bool
is_lost e =
    if e.is_session
    then (elim e.state [
      | auth_failed ↦ true
      | session_disconnected ↦ true
      | expired ↦ true
      | _ ↦ false
    ])
    else false

-- What the calls of an attempt give: zk.Connect of the loop, zk.Connect of Start, and the host name.
pub record Attempt (S : Type 0) : Type 0 where
  pub first : Outcome S
  pub second : Outcome S
  pub hostname : Outcome GoString

-- What a turn of the loop leaves.
pub data Turn (S : Type 0) : Type 0 where
  -- the loop waits for the next event
  listening : Manager S → Turn S
  -- the loop has ended, after Start has started another
  restarted : Manager S → Turn S
  -- the attempts so far have failed
  trying : Manager S → Turn S
  -- the loop has ended, since `terminate` was set
  terminated : Manager S → Turn S
  -- a send to the feedback channel waits
  blocked : Turn S
  crashed : Turn S

-- The signals that were sent from one state to another find room in the channel.
fits : {S : Type 0} → ℕ → Manager S → Manager S → Bool
fits room m n = leb (length n.feedback) (length m.feedback + room)

within : {S : Type 0} → ℕ → Manager S → Turn S → Turn S
unfolding fits
within room m (listening n) = if fits room m n then listening n else blocked
within room m (restarted n) = if fits room m n then restarted n else blocked
within room m (trying n) = if fits room m n then trying n else blocked
within room m (terminated n) = if fits room m n then terminated n else blocked
within room m blocked = blocked
within room m crashed = crashed

module _ {S : Type 0} (zk : Client S) (c : Config) where
  -- An attempt to connect again.
  unfoldable pub attempt : Attempt S → Manager S → Manager S × Outcome (Unit {0})
  attempt a m = and_then (connect a.first m) (λ u. start zk c a.second a.hostname)

  -- After an attempt that failed with an error the loop goes on.
  after_attempt : (Manager S → Turn S) → Manager S × Outcome (Unit {0}) → Turn S
  after_attempt rest (m, ok a) = restarted m
  after_attempt rest (m, err e) = rest m
  after_attempt rest (m, panicked) = crashed

  unfoldable pub reconnect : List (Attempt S) → Manager S → Turn S
  unfolding after_attempt attempt
  reconnect [] m = trying m
  reconnect (a ∷ attempts) m = after_attempt (reconnect attempts) (attempt a m)

  -- What follows a lost session, before the attempts.
  unfoldable pub on_lost : Manager S → Manager S
  on_lost m = signal disconnected (disconnect zk m)

  -- An event, with the attempts that follow it if the session is lost
  unfoldable pub on_session_event : Event → List (Attempt S) → Manager S → Turn S
  unfolding reconnect on_lost
  on_session_event e attempts m = if is_lost e then reconnect attempts (on_lost m) else listening m

  -- A turn of the loop while each send finds room
  unfoldable pub unblocked_turn : Event → List (Attempt S) → Manager S → Turn S
  unfolding on_session_event
  unblocked_turn e attempts m =
      if m.terminate then terminated (signal disconnected m) else on_session_event e attempts m

  -- A turn of the loop; `room` counts the free places of the channel at its start, and the signals that are
  -- received from it during the turn.
  unfoldable pub session_turn : ℕ → Event → List (Attempt S) → Manager S → Turn S
  unfolding unblocked_turn within
  session_turn room e attempts m = within room m (unblocked_turn e attempts m)
