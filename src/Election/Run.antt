-- ===== src/Election/Run.antt =====
-- The operations of election.Manager on the nodes of ZooKeeper.
pub mod Kept
pub mod Role
pub mod Start
mod Tests
use gobol.Base.{
  ℕ, ◌+◌, Bool, true, false, List, [], ◌∷◌, ◌++◌, Option, none, some, if◌then◌else◌, not, ◌||◌,
  ◌==◌, length,
}
use gobol.Base.Text.{GoString, codes, str_eq}
use gobol.Base.Int.{ℤ, pos}
use gobol.Base.SyncMap.{SyncMap, load, store, delete_each}
use gobol.Election.Nodes.{store_nodes, observe}
use gobol.Election.{
  Outcome, ok, err, panicked, Client, Config, Signal, master, slave, cluster_changed, disconnected,
  Manager, Cluster, ephemeral, and_then, request, signal,
}

no_node : Outcome GoString → Outcome (Option GoString)
no_node (ok text) = ok (some text)
no_node (err e) = if str_eq e (codes "zk: node does not exist") then ok none else err e
no_node panicked = panicked

in_cluster : Option GoString → List GoString
in_cluster none = []
in_cluster (some node) = node ∷ []

name_of : Option GoString → GoString
name_of none = []
name_of (some node) = node

abbrev pub slave_node : Config → GoString → GoString
slave_node c name = c.zk_slave_nodes_uri ++ b'/' ∷ name

module _ {S : Type 0} where
  become_slave : Manager S → Manager S
  become_slave m = signal slave (record m { is_master = false })

  become_master : Manager S → Manager S
  become_master m = signal master (record m { is_master = true })

  cluster_of : Manager S → Option GoString → List GoString → Cluster
  unfolding in_cluster name_of
  cluster_of m master_node children =
      let nodes = in_cluster master_node ++ children in
      record {
        is_master = m.is_master;
        master = name_of master_node;
        slaves = children;
        nodes = nodes;
        num_nodes = length nodes;
      }

  -- The start of listenForNodeEvents; a nil cluster has no nodes to read.
  on_cluster : Option Cluster → Manager S → Manager S × Outcome (Unit {0})
  unfolding store_nodes
  on_cluster (some cluster) m =
      (record m { cluster_nodes = store_nodes cluster.nodes m.cluster_nodes }, ok tt)
  on_cluster none m = (m, panicked)

  -- The body of the loop: an error is logged, and a nil cluster has no nodes to read.
  on_info : Manager S × Outcome (Option Cluster) → Outcome (Manager S)
  unfolding observe
  on_info (m, ok (some cluster)) = ok (observe cluster.nodes m)
  on_info (m, ok none) = panicked
  on_info (m, err e) = ok m
  on_info (m, panicked) = panicked

module _ {S : Type 0} (zk : Client S) where
  -- (m *Manager) getNodeData
  unfoldable pub get_node_data : GoString → Manager S → Manager S × Outcome (Option GoString)
  unfolding no_node
  get_node_data node m = let r = request (zk.get node) m in (r.0, no_node r.1)

  pub create_if_missing :
      GoString → GoString → ℤ → Option GoString → Manager S → Manager S × Outcome (Unit {0})
  create_if_missing node bytes flags none m =
      and_then (request (zk.create node bytes flags) m) (λ path m'. (m', ok tt))
  create_if_missing node bytes flags (some _) m = (m, ok tt)

  -- (m *Manager) Disconnect
  unfoldable pub disconnect : Manager S → Manager S
  disconnect m =
      let m' : Manager S = record m { terminate = true } in
      if m.connected
      then (if zk.is_disconnected m.zk
          then m'
          else signal disconnected (record m' { zk = zk.close m.zk }))
      else m'

module _ {S : Type 0} (zk : Client S) (c : Config) where
  -- (m *Manager) getZKMasterNode
  unfoldable pub get_zk_master_node : Manager S → Manager S × Outcome (Option GoString)
  get_zk_master_node m =
      if m.connected then get_node_data zk c.zk_election_node_uri m else (m, ok none)

  -- (m *Manager) createSlaveDir
  unfoldable pub create_slave_dir : Manager S → Manager S × Outcome (Unit {0})
  unfolding create_if_missing
  create_slave_dir m =
      and_then (get_node_data zk c.zk_slave_nodes_uri m)
        (create_if_missing zk c.zk_slave_nodes_uri [] (pos 0))

  -- (m *Manager) registerAsSlave
  unfoldable pub register_as_slave : GoString → Manager S → Manager S × Outcome (Unit {0})
  unfolding create_if_missing become_slave
  register_as_slave name m = and_then (create_slave_dir m) λ _ m1.
      and_then (get_node_data zk (slave_node c name) m1) λ text m2.
        and_then (create_if_missing zk (slave_node c name) name ephemeral text m2)
          (λ _ m3. (become_slave m3, ok tt))

  -- The end of electForMaster: the node is no slave any more; its errors are only logged.
  delete_slave : GoString → Manager S × Outcome (Option GoString) → Manager S × Outcome (Unit {0})
  delete_slave name (m, ok none) = (m, ok tt)
  delete_slave name (m, ok (some _)) =
      let r = request (zk.delete (slave_node c name) (pos 0)) m in
      (r.0, elim r.1 [ ok _ ↦ ok tt | err _ ↦ ok tt | panicked ↦ panicked ])
  delete_slave name (m, err e) = (m, ok tt)
  delete_slave name (m, panicked) = (m, panicked)

  on_created : GoString → Manager S × Outcome GoString → Manager S × Outcome (Unit {0})
  unfolding delete_slave become_master
  on_created name (m, ok path) =
      delete_slave name (get_node_data zk (slave_node c name) (become_master m))
  on_created name (m, err e) =
      if str_eq e (codes "zk: node already exists") then register_as_slave name m else (m, err e)
  on_created name (m, panicked) = (m, panicked)

  create_master : GoString → Manager S → Manager S × Outcome (Unit {0})
  unfolding on_created
  create_master name m =
      on_created name (request (zk.create c.zk_election_node_uri name ephemeral) m)

  -- A master that is this node does not end the function.
  elect_with : GoString → Option GoString → Manager S → Manager S × Outcome (Unit {0})
  unfolding create_master
  elect_with name none m = create_master name m
  elect_with name (some node) m =
      if str_eq name node
      then create_master name (record m { is_master = true })
      else register_as_slave name m

  children_of : Option GoString → Manager S → Manager S × Outcome (List GoString)
  children_of none m = (m, ok [])
  children_of (some _) m = request (zk.children c.zk_slave_nodes_uri) m

  -- (m *Manager) GetClusterInfo
  unfoldable pub get_cluster_info : Manager S → Manager S × Outcome (Option Cluster)
  unfolding cluster_of children_of
  get_cluster_info m =
      if m.connected
      then (and_then (get_zk_master_node m) λ master_node m1.
          and_then (get_node_data zk c.zk_slave_nodes_uri m1) λ slave_dir m2.
            and_then (children_of slave_dir m2)
              (λ children m3. (m3, ok (some (cluster_of m3 master_node children)))))
      else (m, ok none)

  unfoldable pub node_round : Manager S → Outcome (Manager S)
  unfolding on_info
  node_round m = on_info (get_cluster_info m)

  -- The nodes that are known before the loop of listenForNodeEvents begins.
  unfoldable pub first_nodes : Manager S → Manager S × Outcome (Unit {0})
  unfolding on_cluster
  first_nodes m = and_then (get_cluster_info m) on_cluster

  -- (m *Manager) electForMaster; `hostname` is what os.Hostname gives.
  unfoldable pub elect_for_master : Outcome GoString → Manager S → Manager S × Outcome (Unit {0})
  unfolding elect_with
  elect_for_master hostname m =
      and_then (m, hostname) λ name m1. and_then (get_zk_master_node m1) (elect_with name)

-- The types of the events on the election node.
pub data NodeEvent : Type 0 where
  node_deleted node_created other_event : NodeEvent

module _ {S : Type 0} where
  -- The part of (m *Manager) connect before its goroutine; the argument is what zk.Connect gives.
  unfoldable pub connect : Outcome S → Manager S → Manager S × Outcome (Unit {0})
  connect (ok s) m = (record m { connected = true; zk = s }, ok tt)
  connect (err e) m = (record m { connected = false }, err e)
  connect panicked m = (m, panicked)

module _ {S : Type 0} (zk : Client S) (c : Config) where
  -- An event in the loop of listenForElectionEvents; an error of the election is only logged.
  unfoldable pub on_election_event : Outcome GoString → NodeEvent → Manager S → Manager S
  on_election_event hostname node_deleted m = (elect_for_master zk c hostname m).0
  on_election_event hostname node_created m = m
  on_election_event hostname other_event m = m

  -- (m *Manager) Start, up to the goroutines that it starts.
  unfoldable pub start : Outcome S → Outcome GoString → Manager S → Manager S × Outcome (Unit {0})
  unfolding connect
  start connection hostname m =
      and_then (connect connection (record m { terminate = false })) λ _ m1.
        and_then (elect_for_master zk c hostname m1) λ _ m2.
          and_then (create_slave_dir zk c m2) λ _ m3.
            and_then (request (zk.exists_w c.zk_election_node_uri) m3) (λ _ m4. first_nodes zk c m4)
