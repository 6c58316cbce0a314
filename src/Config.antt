-- ===== src/Config.antt =====
-- raft/config.go: roles and configuration. Durations are nanoseconds.
use raftly.Common.{ℕ, ◌*◌, Bool, true, Bytes, List, [], ◌∷◌, ◌++◌}

pub data NodeState : Type 0 where
  follower candidate pre_candidate leader : NodeState

pub NodeState-discrete : Discrete NodeState
NodeState-discrete = hlevel

pub record PeerConfig : Type 0 where
  pub id : Bytes
  pub address : Bytes

pub record Config : Type 0 where
  pub node_id : Bytes
  pub peers : List PeerConfig
  pub election_timeout : ℕ
  pub heartbeat_interval : ℕ
  pub max_log_entries : ℕ
  pub snapshot_threshold : ℕ
  pub data_dir : Bytes
  pub enable_pre_vote : Bool

abbrev pub millisecond : ℕ
millisecond = 1_000_000

unfoldable pub default_config : Bytes → Config
default_config node_id = record {
  node_id = node_id;
  peers = [];
  election_timeout = 150 * millisecond;
  heartbeat_interval = 50 * millisecond;
  max_log_entries = 1000;
  snapshot_threshold = 10000;
  data_dir = (100 ∷ 97 ∷ 116 ∷ 97 ∷ 47 ∷ []) ++ node_id;  -- "data/"
  enable_pre_vote = true;
}
