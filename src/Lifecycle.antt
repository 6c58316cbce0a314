-- ===== src/Lifecycle.antt =====
-- raft/node.go: `NewRaftNode`, `Start`, `Stop`, the cases of `run`, and what a node shows of itself.
-- `NewRaftNode` makes an error of a file that cannot be opened or read; the model has the file.
pub mod Restart
pub mod Snapshot
mod Tests
use raftly.Common.{
  ℕ, ◌+◌, ◌-◌, List, [], ◌∷◌, map, Option, none, some, Bool, true, false, not, ◌||◌, Bytes, ltb,
  leb, ◌==◌, u64, if◌then◌else◌, is_positive, str_eq,
}
use raftly.Config.{NodeState, follower, PeerConfig, Config}
use raftly.Log
use raftly.Log.{LogEntry, RaftLog, new_raft_log, last_index, get_entries}
use raftly.Wal.Read.{Outcome, recovered, panicked, stuck, read_all}
use raftly.Wal.Record.{Recovered}
use raftly.Wal.File.{Wal, Call}
use raftly.Wal.Ops.{open_wal, close}
use raftly.Node.{
  Node, Peer, Env, stopped, armed, run, send_heartbeats, campaign, spawn, is_leader,
  random_election_timeout, reset_election_timer,
}

abbrev pub new_peer : PeerConfig → Peer
new_peer p = record { id = p.id; next_index = 0; match_index = 0 }

-- The node over what was read. The timer is there after `Start`.
unfoldable pub node_over : Config → Wal → Recovered → Node
node_over config wal r = record {
  id = config.node_id;
  config = config;
  current_term = r.term;
  voted_for = r.voted_for;
  state = follower;
  leader_id = [];
  log = Log.append new_raft_log r.entries;
  wal = wal;
  peers = map new_peer config.peers;
  election_timer = stopped;
  election_timeout = 0;
  last_leader_contact = 0;
  commit_ch = [];
  proposals = [];
  notified = [];
  tasks = [];
  stopping = false;
  timing_update = none;
  registered = false;
}

-- `none` is a panic in `ReadAll`.
unfoldable pub new_raft_node : Config → Bytes → Bytes → List Call → Option Node
new_raft_node config path file calls = elim (read_all file) [
  | recovered r ↦ some (node_over config (open_wal path file calls) r)
  | panicked ↦ none
  | stuck ↦ none
]

unfoldable pub start : Env → Node → Node
start env n =
    let timeout = random_election_timeout env n in
    spawn run
      (record n { registered = true; election_timeout = timeout; election_timer = armed timeout })

unfoldable pub stop : Node → Node
stop n = record n {
  state = follower;
  election_timer = stopped;
  stopping = true;
  wal = (close n.wal).0;
}

-- The cases of the select in `run`: a tick, and the election timer.
unfoldable pub heartbeat_tick : Node → Node
heartbeat_tick n = if is_leader n.state then spawn send_heartbeats n else n

unfoldable pub election_timer_fired : Env → Node → Node
election_timer_fired env n =
    if not (is_leader n.state)
    then spawn (campaign n.config.enable_pre_vote) n
    else reset_election_timer env n

-- The durations are 64 bits of two's complement. What waits in `timingUpdateCh` is replaced.
unfoldable pub update_timings : ℕ → ℕ → Node → Node
update_timings election_timeout heartbeat n =
    let base =
      if is_positive election_timeout then election_timeout else n.config.election_timeout in
    let interval = if is_positive heartbeat then heartbeat else n.config.heartbeat_interval in
    record n {
      config = record (n.config) { election_timeout = base; heartbeat_interval = interval };
      timing_update = some interval;
    }

-- The case of `run` for it: the new interval of the ticker.
unfoldable pub timing_updated : Node → Node × Option ℕ
timing_updated n = (record n { timing_update = none }, n.timing_update)

pub record NodeStatus : Type 0 where
  pub id : Bytes
  pub state : NodeState
  pub term : ℕ
  pub leader_id : Bytes
  pub commit_index : ℕ
  pub last_applied : ℕ
  pub log_index : ℕ

unfoldable pub status : Node → NodeStatus
status n = record {
  id = n.id;
  state = n.state;
  term = n.current_term;
  leader_id = n.leader_id;
  commit_index = n.log.commit_index;
  last_applied = n.log.last_applied;
  log_index = last_index n.log;
}

-- A negative limit is like 0.
unfoldable pub log_snapshot : ℕ → Node → List LogEntry
log_snapshot limit n =
    let last = last_index n.log in
    let from = if ltb limit last then last - limit + 1 else 1 in
    if last == 0 || limit == 0
    then []
    else elim (get_entries n.log from (u64 (last + 1))) [ none ↦ [] | some entries ↦ entries ]
