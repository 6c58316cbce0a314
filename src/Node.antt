-- ===== src/Node.antt =====
-- raft/node.go: the state of a node and its transitions. `mu` is held through each of them.
-- A started node: its election timer is there. The logger is left out. A goroutine that is started
-- is an entry of `tasks`; a reply on a proposal's channel is an entry of `notified`.
pub mod Terms
use raftly.Common.{
  ℕ, ◌+◌, ◌/◌, ◌%◌, List, [], ◌∷◌, ◌++◌, map, Option, Bool, true, false, Bytes, length, ltb, u64,
  str_eq, if◌then◌else◌,
}
use raftly.Config.{NodeState, follower, candidate, pre_candidate, leader, Config}
use raftly.Log
use raftly.Log.{LogEntry, RaftLog, last_index}
use raftly.Wal.File.{Wal}
use raftly.Wal.Ops.{save_state, save_entry, sync}

pub record Peer : Type 0 where
  pub id : Bytes
  pub next_index : ℕ
  pub match_index : ℕ

pub data Timer : Type 0 where
  stopped : Timer
  armed : (timeout : ℕ) → Timer

pub data Task : Type 0 where
  send_heartbeats : Task
  apply_committed : Task
  replicate_to : (peer_id : Bytes) → Task
  campaign : (pre_vote : Bool) → Task
  run : Task

pub record Node : Type 0 where
  pub id : Bytes
  pub config : Config
  pub current_term : ℕ
  pub voted_for : Bytes
  pub state : NodeState
  pub leader_id : Bytes
  pub log : RaftLog
  pub wal : Wal
  pub peers : List Peer
  pub election_timer : Timer
  pub election_timeout : ℕ
  pub last_leader_contact : ℕ
  pub commit_ch : List LogEntry  -- what was sent on `commitCh`
  pub proposals : List (ℕ × ℕ)  -- the caller that waits for an index
  pub notified : List ℕ  -- the callers that were told of success
  pub tasks : List Task
  pub stopping : Bool  -- `stopCh` is closed
  pub timing_update : Option ℕ  -- what waits in `timingUpdateCh`
  pub registered : Bool  -- the transport has the node

-- What a step reads from its surroundings: the clock, and a random number.
pub record Env : Type 0 where
  pub now : ℕ
  pub roll : ℕ

abbrev pub is_leader : NodeState → Bool
is_leader leader = true
is_leader _ = false

abbrev pub is_candidate : NodeState → Bool
is_candidate candidate = true
is_candidate _ = false

abbrev pub is_pre_candidate : NodeState → Bool
is_pre_candidate pre_candidate = true
is_pre_candidate _ = false

-- `go f()`
abbrev pub spawn : Task → Node → Node
spawn t n = record n { tasks = n.tasks ++ t ∷ [] }

-- `rand.Int63n(base)` is some number below `base`; it panics for a base that is not positive, which
-- is left out here: the configuration is taken to have a positive one.
unfoldable pub random_election_timeout : Env → Node → ℕ
random_election_timeout env n = n.config.election_timeout + env.roll % n.config.election_timeout

unfoldable pub reset_election_timer : Env → Node → Node
reset_election_timer env n =
    let timeout = random_election_timeout env n in
    record n { election_timeout = timeout; election_timer = armed timeout }

-- `_ = n.wal.SaveState(...)` and `_ = n.wal.Sync()`: the errors are passed over.
unfoldable pub persist_state : Node → Node
persist_state n = record n { wal = (sync (save_state n.current_term n.voted_for n.wal).0).0 }

-- A higher term is adopted, with no vote in it.
unfoldable pub adopt_term : ℕ → Node → Node
adopt_term term n =
    if ltb n.current_term term
    then persist_state (record n { current_term = term; voted_for = [] })
    else n

unfoldable pub become_follower : Env → ℕ → Bytes → Node → Node
become_follower env term leader_id n =
    let n1 = adopt_term term (record n { state = follower; leader_id = leader_id }) in
    let contact = if str_eq leader_id [] then n1.last_leader_contact else env.now in
    reset_election_timer env (record n1 { last_leader_contact = contact })

unfoldable pub become_candidate : Env → Node → Node
become_candidate env n = reset_election_timer env (
    persist_state (record n {
      state = candidate;
      current_term = u64 (n.current_term + 1);
      voted_for = n.id;
      leader_id = [];
    }))

-- The entry with no data that a new leader appends.
abbrev pub noop : Node → LogEntry
noop n = record {
  index = u64 (last_index n.log + 1);
  term = n.current_term;
  entry_type = Log.entry_normal;
  payload = [];
}

abbrev pub restart_peer : ℕ → Peer → Peer
restart_peer next p = record p { next_index = next; match_index = 0 }

unfoldable pub become_leader : Node → Node
become_leader n = spawn send_heartbeats (record n {
  state = leader;
  leader_id = n.id;
  peers = map (restart_peer (u64 (last_index n.log + 1))) n.peers;
  wal = (sync (save_entry (noop n) n.wal).0).0;
  log = Log.append n.log (noop n ∷ []);
  election_timer = stopped;
})

unfoldable pub quorum : Node → ℕ
quorum n = (length n.peers + 1) / 2 + 1
