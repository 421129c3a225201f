-- ===== src/Election/Run/Start.antt =====
-- What Start gives to a node.
use gobol.Base.{ap, ◌∙◌, ◌≡◌, inl, inr, refl, true, false, Option, none, some}
use gobol.Base.Text.{GoString}
use gobol.Election.{Outcome, ok, err, panicked, Client, Config, Manager, and_then, request, Cluster}
use gobol.Election.Run.{
  connect, elect_for_master, create_slave_dir, first_nodes, get_cluster_info, on_cluster, start,
}
use gobol.Election.Run.Kept.{
  IsKept, request-IsKept, create_slave_dir-IsKept, get_cluster_info-IsKept,
}
use gobol.Election.Run.Role.{IsTold, elect_for_master-tells}

module _ {S : Type 0} where
  -- The same signals and role.
  abbrev IsCalm : Manager S → Manager S → Type 0
  IsCalm m m' = (m'.feedback ≡ m.feedback) × (m'.is_master ≡ m.is_master)

  calm : (m m' : Manager S) → IsKept m m' → IsCalm m m'
  calm m m' k = (ap (λ v. v.0) k, ap (λ v. v.1) k)

  IsCalm-trans : (m m1 m2 : Manager S) → IsCalm m m1 → IsCalm m1 m2 → IsCalm m m2
  IsCalm-trans m m1 m2 (f, b) (g, d) = (g ∙ f, d ∙ b)

  IsTold-calm : (m m1 m2 : Manager S) → IsTold m m1 → IsCalm m1 m2 → IsTold m m2
  IsTold-calm m m1 m2 (inl (f, b)) (g, d) = inl (g ∙ f, d ∙ b)
  IsTold-calm m m1 m2 (inr (f, b)) (g, d) = inr (g ∙ f, d ∙ b)

  abbrev Calms : Manager S → Manager S × Outcome (Unit {0}) → Type 0
  Calms m r = r.1 ≡ ok tt → IsCalm m r.0

  and_then-Calms :
      {A : Type 0} (m : Manager S) (r : Manager S × Outcome A)
      (k : A → Manager S → Manager S × Outcome (Unit {0}))
      → IsKept m r.0
      → ((a : A) (m' : Manager S) → Calms m' (k a m'))
      → Calms m (and_then r k)
  and_then-Calms m (m', ok a) k s f h = IsCalm-trans m m' (k a m').0 (calm m m' s) (f a m' h)
  and_then-Calms m (m', err e) k s f h = cc
  and_then-Calms m (m', panicked) k s f h = cc

  and_then-tells :
      (m : Manager S) (r : Manager S × Outcome (Unit {0}))
      (k : Unit {0} → Manager S → Manager S × Outcome (Unit {0}))
      → (r.1 ≡ ok tt → IsTold m r.0)
      → ((m' : Manager S) → Calms m' (k tt m'))
      → (and_then r k).1 ≡ ok tt
      → IsTold m (and_then r k).0
  and_then-tells m (m', ok a) k s f h = IsTold-calm m m' (k tt m').0 (s refl) (f m' h)
  and_then-tells m (m', err e) k s f h = cc
  and_then-tells m (m', panicked) k s f h = cc

module _ {S : Type 0} (zk : Client S) (c : Config) where
  first_nodes-IsCalm :
      (m : Manager S) → (first_nodes zk c m).1 ≡ ok tt → IsCalm m (first_nodes zk c m).0
  unfolding first_nodes on_cluster
  first_nodes-IsCalm m h = go (get_cluster_info zk c m) (get_cluster_info-IsKept zk c m) h
    where
      go :
          (r : Manager S × Outcome (Option Cluster))
          → IsKept m r.0
          → (and_then r on_cluster).1 ≡ ok tt
          → IsCalm m (and_then r on_cluster).0
      go (m1, ok (some cl)) k q = (ap (λ v. v.0) k, ap (λ v. v.1) k)
      go (m1, ok none) k q = cc
      go (m1, err e) k q = cc
      go (m1, panicked) k q = cc

  -- A call of Start that returns without an error has sent one signal, which tells the role that the node
  -- has then, whatever ZooKeeper answered.
  pub start-tells :
      (connection : Outcome S) (hostname : Outcome GoString) (m : Manager S)
      → (start zk c connection hostname m).1 ≡ ok tt
      → IsTold m (start zk c connection hostname m).0
  unfolding start connect
  start-tells (ok s) hostname m h =
      let m1 : Manager S = record m { terminate = false; connected = true; zk = s } in
      and_then-tells m1 (elect_for_master zk c hostname m1) _
        (elect_for_master-tells zk c hostname m1)
        (λ m2.
          and_then-Calms m2 (create_slave_dir zk c m2) _ (create_slave_dir-IsKept zk c m2) λ _ m3.
            and_then-Calms m3 (request (zk.exists_w c.zk_election_node_uri) m3) _
              (request-IsKept (zk.exists_w c.zk_election_node_uri) m3)
              (λ _ m4. first_nodes-IsCalm m4))
        h
  start-tells (err e) hostname m h = cc
  start-tells panicked hostname m h = cc
