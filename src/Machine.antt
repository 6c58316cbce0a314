-- ===== src/Machine.antt =====
-- raft/node.go, raft/election.go, raft/replication.go: a node as a state machine. A step is one
-- locked section of the code; which one comes next, and with which message, is up to the
-- surroundings.
pub mod Moves
pub mod Invariant
mod Tests
use raftly.Common.{ℕ, suc, ◌+◌, ◌^◌, ◌≤◌, ◌<◌, ◌≡◌, Bytes, some}
use raftly.Config.{follower, pre_candidate}
use raftly.Log.{LogEntry, last_index}
use raftly.Log.Shape.{Contiguous}
use raftly.Message.{VoteRequest, AppendEntriesRequest, AppendEntriesResponse}
use raftly.Node.{Node, Env, become_follower, become_candidate, become_leader}
use raftly.Election.{handle_request_vote}
use raftly.Replication.{handle_append_entries}
use raftly.Leader.{maybe_send_heartbeats, replicate_response}
use raftly.Proposals.{ProposeResult, propose, deliver}
use raftly.Lifecycle.{start, stop, heartbeat_tick, election_timer_fired, update_timings}

-- A leader sends entries that follow on its `PrevLogIndex`. An entry that is delivered was
-- committed when it was collected. The counters are below the width of their type.
pub data Step : Node → Node → Type 0 where
  vote_requested :
      {n : Node} (env : Env) (req : VoteRequest) → Step n (handle_request_vote env req n).0
  entries_received :
      {n m : Node} (env : Env) (req : AppendEntriesRequest) (resp : AppendEntriesResponse)
      → Contiguous (suc req.prev_log_index) req.entries
      → handle_append_entries env req n ≡ some (m, resp)
      → Step n m
  pre_vote_started : {n : Node} → Step n (record n { state = pre_candidate })
  election_started :
      {n : Node} (env : Env) → n.current_term + 1 < 2 ^ 64 → Step n (become_candidate env n)
  election_won : {n : Node} → last_index n.log + 1 < 2 ^ 64 → Step n (become_leader n)
  stepped_down :
      {n : Node} (env : Env) (term : ℕ) (leader_id : Bytes)
      → Step n (become_follower env term leader_id n)
  heartbeats_sent : {n : Node} → Step n (maybe_send_heartbeats n)
  peer_answered :
      {n : Node} (env : Env) (peer_id : Bytes) (req : AppendEntriesRequest)
      (resp : AppendEntriesResponse)
      → Step n (replicate_response env peer_id req resp n)
  proposed :
      {n : Node} (payload : Bytes) (caller : ℕ)
      → last_index n.log + 1 < 2 ^ 64
      → Step n (propose payload caller n).0
  entry_delivered : {n : Node} (e : LogEntry) → e.index ≤ n.log.commit_index → Step n (deliver e n)
  ticked : {n : Node} → Step n (heartbeat_tick n)
  timed_out : {n : Node} (env : Env) → Step n (election_timer_fired env n)
  timings_updated :
      {n : Node} (election_timeout heartbeat : ℕ)
      → Step n (update_timings election_timeout heartbeat n)
  started : {n : Node} (env : Env) → Step n (start env n)
  stopped : {n : Node} → Step n (stop n)

pub data Run (n : Node) : Node → Type 0 where
  here : Run n n
  next : {m k : Node} → Run n m → Step m k → Run n k
