-- ===== src/Election.antt =====
-- election/election.go and election/structs.go: the nodes of a cluster elect a master in ZooKeeper.
-- The ZooKeeper client is a parameter; its state may change in every call, also by other nodes.
pub mod Nodes
pub mod Run
pub mod Session
pub mod Settings
use gobol.Base.{Bool, true, false, List, [], ◌∷◌, ◌++◌, Option, none, some, ℕ, if◌then◌else◌}
use gobol.Base.Text.{GoString, codes, str_eq}
use gobol.Base.Int.{ℤ, pos}
use gobol.Base.SyncMap.{SyncMap}
use gobol.Base.Outcome.{Outcome as GoOutcome}
pub use gobol.Base.Outcome.{ok, err, panicked}

-- The outcome of a call, with the message of its error.
abbrev pub Outcome : Type 0 → Type 0
Outcome = GoOutcome GoString

-- The calls of `zk.Conn`: the data of a node, its creation with data and flags, its deletion at a
-- version, a watch on it, and the names of its children.
pub record Client (S : Type 0) : Type 0 where
  pub get : GoString → S → S × Outcome GoString
  pub create : GoString → GoString → ℤ → S → S × Outcome GoString
  pub delete : GoString → ℤ → S → S × Outcome (Unit {0})
  pub exists_w : GoString → S → S × Outcome (Unit {0})
  pub children : GoString → S → S × Outcome (List GoString)
  pub is_disconnected : S → Bool
  pub close : S → S

-- What the code reads of Config.
pub record Config : Type 0 where
  pub zk_election_node_uri : GoString
  pub zk_slave_nodes_uri : GoString

-- The signals of the feedback channel.
pub data Signal : Type 0 where
  master slave cluster_changed disconnected : Signal

-- `connected` tells whether zkConnection is set, `feedback` is the sequence of all signals that were
-- sent so far, of which the channel holds the last ones, five at most.
pub record Manager (S : Type 0) : Type 0 where
  pub connected : Bool
  pub zk : S
  pub is_master : Bool
  pub feedback : List Signal
  pub cluster_nodes : SyncMap Bool
  pub terminate : Bool

pub record Cluster : Type 0 where
  pub is_master : Bool
  pub master : GoString
  pub slaves : List GoString
  pub nodes : List GoString
  pub num_nodes : ℕ

-- zk.FlagEphemeral
abbrev pub ephemeral : ℤ
ephemeral = pos 1

module _ {S : Type 0} where
  -- The outcome of a call goes on in the rest of the function, or is returned.
  abbrev pub and_then :
      {A B : Type 0}
      → Manager S × Outcome A
      → (A → Manager S → Manager S × Outcome B)
      → Manager S × Outcome B
  and_then (m, ok a) k = k a m
  and_then (m, err e) k = (m, err e)
  and_then (m, panicked) k = (m, panicked)

  -- A call of the client; without a connection its receiver is nil.
  unfoldable pub request : {A : Type 0} → (S → S × Outcome A) → Manager S → Manager S × Outcome A
  request f m = if m.connected then (record m { zk = (f m.zk).0 }, (f m.zk).1) else (m, panicked)

  -- m.feedbackChannel <- s, where the channel has room or its reader makes some
  abbrev pub signal : Signal → Manager S → Manager S
  signal s m = record m { feedback = m.feedback ++ s ∷ [] }
