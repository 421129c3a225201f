-- ===== src/Election/Session/Tests.antt =====
-- A lost session over a ZooKeeper that takes every call, with an attempt that fails before one that does not.
use gobol.Base.{
  ◌≤◌, ◌<◌, ◌⊎◌, length, ◌≡◌, refl, Bool, true, false, none, some, [], ◌∷◌, ◌++◌, if◌then◌else◌,
}
use gobol.Base.Text.{codes, str_eq}
use gobol.Base.Int.{pos}
use gobol.Election.{Outcome, ok, err, Client, Config, Manager, request}
use gobol.Election.Run.{
  start, disconnect, connect, elect_for_master, get_zk_master_node, get_node_data, create_slave_dir,
  first_nodes, get_cluster_info,
}
use gobol.Election.Run.Role.{IsTold}
use gobol.Election.Session.{
  Event, expired, is_lost, Attempt, restarted, attempt, on_lost, session_turn, blocked,
}
use gobol.Election.Session.Restart.{tried, AllFail, recovered, session_turn-restarts}
use gobol.Election.Settings.{bad_check_time, new}

-- The nodes exist, and hold no data.
abbrev client : Client Bool
client = record {
  get = λ node s. (s, ok []);
  create = λ node text flags s. (s, ok node);
  delete = λ node version s. (s, ok tt);
  exists_w = λ node s. (s, ok tt);
  children = λ node s. (s, ok []);
  is_disconnected = λ s. s;
  close = λ s. true;
}

abbrev config : Config
config = record { zk_election_node_uri = codes "/m"; zk_slave_nodes_uri = codes "/s" }

abbrev manager : Manager Bool
manager = record {
  connected = true;
  zk = false;
  is_master = true;
  feedback = [];
  cluster_nodes = [];
  terminate = false;
}

abbrev lost : Event
lost = record { is_session = true; state = expired }

abbrev failing : Attempt Bool
failing = record { first = err (codes "timeout"); second = ok false; hostname = ok (codes "a") }

abbrev working : Attempt Bool
working = record { first = ok false; second = ok false; hostname = ok (codes "a") }

is_lost_event : is_lost lost ≡ true
unfolding is_lost
is_lost_event = refl

all_fail : AllFail client config (failing ∷ []) (on_lost client config manager)
unfolding attempt connect on_lost disconnect
all_fail = ((codes "timeout", refl), tt)

works :
    (attempt client config working
      (tried client config (failing ∷ []) (on_lost client config manager))).1
    ≡ ok tt
unfolding attempt connect on_lost disconnect start elect_for_master get_zk_master_node get_node_data
    request create_slave_dir first_nodes get_cluster_info gobol.Election.Run.register_as_slave
    str_eq
works = refl

abbrev back : Manager Bool
back = recovered client config (failing ∷ []) working manager

session_turn-restarts_example :
    ((length back.feedback ≤ 5)
      × (session_turn client config 5 lost ((failing ∷ []) ++ working ∷ []) manager
          ≡ restarted back)
      × IsTold (tried client config (failing ∷ []) (on_lost client config manager)) back)
    ⊎ ((5 < length back.feedback)
        × (session_turn client config 5 lost ((failing ∷ []) ++ working ∷ []) manager ≡ blocked))
session_turn-restarts_example =
    session_turn-restarts client config 5 lost (failing ∷ []) working [] manager refl is_lost_event
      all_fail works

refused :
    new
      (λ s. if str_eq s (codes "x") then none else some (pos 1))
      (record {
        session_timeout = codes "1s";
        reconnection_timeout = codes "1s";
        cluster_change_check_time = codes "x";
        cluster_change_wait_time = codes "1s";
      })
    ≡ err (bad_check_time (codes "x"))
unfolding new str_eq
refused = refl
