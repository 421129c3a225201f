-- ===== src/Services/Cassandra.antt =====
-- cassandra/cassandra.go. gocql is a parameter: the cluster of NewCluster, and CreateSession.
use gobol.Base.{◌==◌, Bool, false, Option, none, some, List, [], if◌then◌else◌}
use gobol.Base.Text.{GoString, codes, str_eq}
use gobol.Base.Int.{ℤ, pos, negsuc}
use gobol.Base.Outcome.{Outcome, ok, ◌>>=◌}

-- Settings
pub record Settings : Type 0 where
  pub keyspace : GoString
  pub consistency : GoString
  pub nodes : List GoString
  pub username : GoString
  pub password : GoString
  pub connections : ℤ
  pub retry : ℤ
  pub page_size : ℤ
  pub proto_version : ℤ
  pub timeout : GoString

-- The values of gocql.Consistency that the code sets, and any other.
pub data Consistency : Type 0 where
  one : Consistency
  quorum : Consistency
  all : Consistency
  other : Consistency

-- gocql.ClusterConfig, the fields that the code sets
pub record Cluster : Type 0 where
  pub hosts : List GoString
  pub timeout : ℤ
  pub keyspace : GoString
  pub proto_version : ℤ
  pub consistency : Consistency
  pub username : GoString
  pub password : GoString
  pub num_conns : ℤ
  pub num_retries : ℤ

-- The test on an int that is not set.
is_zero : ℤ → Bool
is_zero (pos n) = n == 0
is_zero (negsuc n) = false

-- The switch on the consistency; another text keeps that of NewCluster.
unfoldable pub consistency_of : GoString → Consistency → Consistency
consistency_of name old =
    if str_eq name (codes "one")
    then one
    else if str_eq name (codes "quorum")
    then quorum
    else if str_eq name (codes "all")
    then all
    else old

unfoldable pub configured : Settings → ℤ → Cluster → Cluster
unfolding is_zero
configured s timeout c = record {
  hosts = c.hosts;
  timeout = timeout;
  keyspace = s.keyspace;
  proto_version = if is_zero s.proto_version then pos 3 else s.proto_version;
  consistency = consistency_of s.consistency c.consistency;
  username = s.username;
  password = s.password;
  num_conns = s.connections;
  num_retries = s.retry;
}

module _ {Session : Type 0} (parse_duration : GoString → Outcome GoString ℤ)
    (new_cluster : List GoString → Cluster)
    (create_session : Cluster → Outcome GoString Session) where
  timeout_of : Settings → ℤ → Outcome GoString ℤ
  timeout_of s old = if str_eq s.timeout [] then ok old else parse_duration s.timeout

  -- New: the session, and the page size if it is set
  unfoldable pub new : Settings → Outcome GoString (Session × Option ℤ)
  unfolding timeout_of is_zero
  new s =
      let c = new_cluster s.nodes in
      timeout_of s c.timeout >>= λ t. create_session (configured s t c) >>= λ session.
      ok (session, if is_zero s.page_size then none else some s.page_size)
