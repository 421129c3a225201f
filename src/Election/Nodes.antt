-- ===== src/Election/Nodes.antt =====
-- election/election.go and util/collections.go: what the loop of listenForNodeEvents does with the nodes that
-- it finds.
pub mod Watch
use gobol.Base.{
  ℕ, ◌+◌, Bool, true, false, List, [], ◌∷◌, ◌++◌, Option, none, some, if◌then◌else◌, not, ◌||◌,
  ◌==◌, length,
}
use gobol.Base.Text.{GoString}
use gobol.Base.SyncMap.{SyncMap, load, store, delete_each}
use gobol.Election.{cluster_changed, Manager, signal}

-- util.GetSyncMapSize
count_entries : SyncMap Bool → ℕ → ℕ
count_entries [] n = n
count_entries (_ ∷ es) n = count_entries es (n + 1)

unfoldable pub get_sync_map_size : SyncMap Bool → ℕ
unfolding count_entries
get_sync_map_size m = count_entries m 0

-- The loops over cluster.Nodes of listenForNodeEvents.
unfoldable pub store_nodes : List GoString → SyncMap Bool → SyncMap Bool
store_nodes [] m = m
store_nodes (n ∷ ns) m = store_nodes ns (store m n true)

is_loaded : Option Bool → Bool
is_loaded none = false
is_loaded (some _) = true

unfoldable pub any_new : List GoString → SyncMap Bool → Bool
unfolding is_loaded
any_new [] m = false
any_new (n ∷ ns) m = not (is_loaded (load m n)) || any_new ns m

unfoldable pub is_changed : List GoString → SyncMap Bool → Bool
unfolding get_sync_map_size any_new
is_changed nodes m = if not (length nodes == get_sync_map_size m) then true else any_new nodes m

module _ {S : Type 0} where
  -- A round of the loop of listenForNodeEvents on the nodes that GetClusterInfo gives.
  unfoldable pub observe : List GoString → Manager S → Manager S
  unfolding is_changed store_nodes
  observe nodes m =
      if is_changed nodes m.cluster_nodes
      then signal cluster_changed (record m {
        cluster_nodes = store_nodes nodes (delete_each m.cluster_nodes m.cluster_nodes);
      })
      else m
