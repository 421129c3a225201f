-- ===== src/Election/Run/Kept.antt =====
-- The requests to ZooKeeper change nothing that a client of the manager sees.
use gobol.Base.{◌∙◌, ◌≡◌, refl, Bool, true, false, List, [], Option, none, some, if◌then◌else◌}
use gobol.Base.Text.{GoString}
use gobol.Base.Int.{ℤ, pos}
use gobol.Base.SyncMap.{SyncMap}
use gobol.Election.{Outcome, ok, err, panicked, Client, Config, Signal, Manager, and_then, request}
use gobol.Election.Run.{
  get_node_data, get_zk_master_node, create_if_missing, create_slave_dir, children_of,
  get_cluster_info,
}

module _ {S : Type 0} where
  -- The signals that were sent, the role, and the known nodes.
  abbrev pub visible : Manager S → List Signal × Bool × SyncMap Bool
  visible m = (m.feedback, m.is_master, m.cluster_nodes)

  abbrev pub IsKept : Manager S → Manager S → Type 0
  IsKept m m' = visible m' ≡ visible m

  pub and_then-IsKept :
      {A B : Type 0} (m : Manager S) (r : Manager S × Outcome A)
      (k : A → Manager S → Manager S × Outcome B)
      → IsKept m r.0
      → ((a : A) (m' : Manager S) → IsKept m m' → IsKept m (k a m').0)
      → IsKept m (and_then r k).0
  and_then-IsKept m (m', ok a) k s f = f a m' s
  and_then-IsKept m (m', err e) k s f = s
  and_then-IsKept m (m', panicked) k s f = s

  pub if-IsKept :
      {B : Type 0} (m : Manager S) (b : Bool) (x y : Manager S × Outcome B)
      → IsKept m x.0
      → IsKept m y.0
      → IsKept m (if b then x else y).0
  if-IsKept m true x y p q = p
  if-IsKept m false x y p q = q

  pub request-IsKept :
      {A : Type 0} (f : S → S × Outcome A) (m : Manager S) → IsKept m (request f m).0
  unfolding request
  request-IsKept f m =
      if-IsKept m m.connected (record m { zk = (f m.zk).0 }, (f m.zk).1) (m, panicked) refl refl

module _ {S : Type 0} (zk : Client S) (c : Config) where
  pub get_node_data-IsKept :
      (node : GoString) (m : Manager S) → IsKept m (get_node_data zk node m).0
  unfolding get_node_data
  get_node_data-IsKept node m = request-IsKept (zk.get node) m

  pub get_zk_master_node-IsKept : (m : Manager S) → IsKept m (get_zk_master_node zk c m).0
  unfolding get_zk_master_node
  get_zk_master_node-IsKept m =
      if-IsKept m m.connected (get_node_data zk c.zk_election_node_uri m) (m, ok none)
        (get_node_data-IsKept c.zk_election_node_uri m) refl

  pub create_if_missing-IsKept :
      (node bytes : GoString) (flags : ℤ) (o : Option GoString) (m : Manager S)
      → IsKept m (create_if_missing zk node bytes flags o m).0
  unfolding create_if_missing
  create_if_missing-IsKept node bytes flags none m =
      and_then-IsKept m (request (zk.create node bytes flags) m) _
        (request-IsKept (zk.create node bytes flags) m) (λ a m' q. q)
  create_if_missing-IsKept node bytes flags (some x) m = refl

  pub create_slave_dir-IsKept : (m : Manager S) → IsKept m (create_slave_dir zk c m).0
  unfolding create_slave_dir
  create_slave_dir-IsKept m =
      and_then-IsKept m (get_node_data zk c.zk_slave_nodes_uri m) _
        (get_node_data-IsKept c.zk_slave_nodes_uri m)
        (λ a m' q. create_if_missing-IsKept c.zk_slave_nodes_uri [] (pos 0) a m' ∙ q)

  children_of-IsKept : (o : Option GoString) (m : Manager S) → IsKept m (children_of zk c o m).0
  unfolding children_of
  children_of-IsKept none m = refl
  children_of-IsKept (some x) m = request-IsKept (zk.children c.zk_slave_nodes_uri) m

  pub get_cluster_info-IsKept : (m : Manager S) → IsKept m (get_cluster_info zk c m).0
  unfolding get_cluster_info
  get_cluster_info-IsKept m =
      if-IsKept m m.connected _ (m, ok none)
        (and_then-IsKept m (get_zk_master_node zk c m) _ (get_zk_master_node-IsKept m)
          λ master_node m1 q1.
            and_then-IsKept m (get_node_data zk c.zk_slave_nodes_uri m1) _
              (get_node_data-IsKept c.zk_slave_nodes_uri m1 ∙ q1)
              λ slave_dir m2 q2.
                and_then-IsKept m (children_of zk c slave_dir m2) _
                  (children_of-IsKept slave_dir m2 ∙ q2) (λ children m3 q3. q3))
        refl
