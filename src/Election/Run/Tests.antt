-- ===== src/Election/Run/Tests.antt =====
-- The theorems on the election at a small ZooKeeper, and runs of its operations.
use gobol.Base.{◌≡◌, ◌≢◌, ◌⊎◌, inl, inr, refl, true, false, [], ◌∷◌, Option, none, some, Elem}
use gobol.Base.Text.{GoString, codes, str_eq}
use gobol.Base.SyncMap.{SyncMap, load, store, delete, keys}
use gobol.Election.{
  Outcome, ok, err, panicked, Client, Config, Signal, master, slave, cluster_changed, Manager,
  ephemeral, request,
}
use gobol.Election.Nodes.{is_changed, observe}
use gobol.Election.Run.{start, elect_for_master, node_round, get_cluster_info}
use gobol.Election.Run.Role.{IsTold, elect_again-demotes}
use gobol.Election.Nodes.Watch.{Same, observe-tracks}
use gobol.Election.Run.Start.{start-tells}

-- Nodes with their data, in one ZooKeeper that does not fail; the children of every node are "b".
abbrev Tree : Type 0
Tree = SyncMap GoString

abbrev found : Option GoString → Outcome GoString
found none = err (codes "zk: node does not exist")
found (some text) = ok text

abbrev put : GoString → GoString → Tree → Option GoString → Tree × Outcome GoString
put node text t none = (store t node text, ok node)
put node text t (some _) = (t, err (codes "zk: node already exists"))

abbrev tree_client : Client Tree
tree_client = record {
  get = λ node t. (t, found (load t node));
  create = λ node text flags t. put node text t (load t node);
  delete = λ node version t. (delete t node, ok tt);
  exists_w = λ node t. (t, ok tt);
  children = λ node t. (t, ok (codes "b" ∷ []));
  is_disconnected = λ t. false;
  close = λ t. t;
}

abbrev config : Config
config = record { zk_election_node_uri = codes "/m"; zk_slave_nodes_uri = codes "/s" }

abbrev manager : Tree → Manager Tree
manager t = record {
  connected = true;
  zk = t;
  is_master = false;
  feedback = [];
  cluster_nodes = (codes "b", true) ∷ [];
  terminate = false;
}

elected : (elect_for_master tree_client config (ok (codes "a")) (manager [])).1 ≡ ok tt
unfolding elect_for_master gobol.Election.Run.get_zk_master_node gobol.Election.Run.get_node_data
    request load store str_eq
elected = refl

abbrev as_master : Manager Tree
as_master = record (manager ((codes "/m", codes "a") ∷ (codes "/s", []) ∷ [])) { is_master = true }

elected_again : (elect_for_master tree_client config (ok (codes "a")) as_master).1 ≡ ok tt
unfolding elect_for_master gobol.Election.Run.get_zk_master_node gobol.Election.Run.get_node_data
    gobol.Election.Run.register_as_slave gobol.Election.Run.create_slave_dir request load store
    str_eq
elected_again = refl

own_name : found (load as_master.zk (codes "/m")) ≡ ok (codes "a")
unfolding load str_eq
own_name = refl

refused :
    (put (codes "/m") (codes "a") as_master.zk (load as_master.zk (codes "/m"))).1
    ≡ err (codes "zk: node already exists")
unfolding load str_eq
refused = refl

elect_again-demotes_example :
    let r = elect_for_master tree_client config (ok (codes "a")) as_master in
    ((r.1 ≡ ok tt) × (r.0.feedback ≡ slave ∷ []) × (r.0.is_master ≡ false))
    ⊎ ((r.1 ≢ ok tt) × (r.0.feedback ≡ []) × (r.0.is_master ≡ true))
elect_again-demotes_example =
    elect_again-demotes tree_client config (codes "a") as_master refl own_name refused

aa-ne-b : ¬ Elem (codes "aa") (codes "b" ∷ [])
aa-ne-b h = elim h [ inl e ↦ cc | inr i ↦ i ]

observe-tracks_example :
    let m = manager [] in
    let nodes = codes "aa" ∷ codes "b" ∷ [] in
    (Same nodes (keys m.cluster_nodes) × (observe nodes m ≡ m))
    ⊎ ((¬ Same nodes (keys m.cluster_nodes))
        × ((observe nodes m).feedback ≡ cluster_changed ∷ [])
        × Same (keys (observe nodes m).cluster_nodes) nodes)
observe-tracks_example =
    observe-tracks (codes "aa" ∷ codes "b" ∷ []) (manager []) (aa-ne-b, ((λ h. h), tt))
      ((λ h. h), tt)

abbrev after_round : Manager Tree
after_round = record as_master {
  feedback = cluster_changed ∷ [];
  cluster_nodes = (codes "a", true) ∷ (codes "b", true) ∷ [];
}

one_round : node_round tree_client config as_master ≡ ok after_round
unfolding node_round get_cluster_info gobol.Election.Run.get_zk_master_node
    gobol.Election.Run.get_node_data observe is_changed gobol.Election.Nodes.any_new
    gobol.Election.Nodes.get_sync_map_size gobol.Election.Nodes.store_nodes request load store
    delete str_eq
one_round = refl

abbrev unconnected : Manager Tree
unconnected = record (manager []) { connected = false }

started : (start tree_client config (ok []) (ok (codes "a")) unconnected).1 ≡ ok tt
unfolding start gobol.Election.Run.connect gobol.Election.Run.first_nodes
    gobol.Election.Run.create_slave_dir get_cluster_info elect_for_master
    gobol.Election.Run.get_zk_master_node gobol.Election.Run.get_node_data
    gobol.Election.Nodes.store_nodes request load store delete str_eq
started = refl

start-tells_example :
    IsTold unconnected (start tree_client config (ok []) (ok (codes "a")) unconnected).0
start-tells_example = start-tells tree_client config (ok []) (ok (codes "a")) unconnected started
