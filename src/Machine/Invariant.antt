-- ===== src/Machine/Invariant.antt =====
-- raft/node.go, raft/election.go, raft/replication.go: what holds of a node after any steps.
use raftly.Common.{refl, arith}
use raftly.Log.Shape.{IsWellFormed}
use raftly.Node.{Node, reset_election_timer}
use raftly.Election.Vote.{handle_request_vote_effect}
use raftly.Replication.Safety.{handle_append_entries-Kept}
use raftly.Lifecycle.{heartbeat_tick, election_timer_fired, update_timings, start, stop}
use raftly.Machine.{
  Step, vote_requested, entries_received, pre_vote_started, election_started, election_won,
  stepped_down, heartbeats_sent, peer_answered, proposed, entry_delivered, ticked, timed_out,
  timings_updated, started, stopped, Run, here, next,
}
use raftly.Machine.Moves.{
  Moved, Moved-trans, Moved-same_log, Kept-Moved, become_follower-Moved, become_candidate-Moved,
  become_leader-Moved, propose-Moved, maybe_send_heartbeats-Moved, replicate_response-Moved,
  deliver-Moved,
}

Step-Moved : {n m : Node} → Step n m → IsWellFormed n.log → Moved n m
unfolding heartbeat_tick election_timer_fired reset_election_timer update_timings start stop
Step-Moved {n} (vote_requested env req) w =
    let v = handle_request_vote_effect env req n in Moved-same_log w v.log (omega (arith, v.term))
Step-Moved {n} (entries_received env req resp c handles) w =
    Kept-Moved (handle_append_entries-Kept env req n w c handles)
Step-Moved pre_vote_started w = Moved-same_log w refl (omega arith)
Step-Moved {n} (election_started env small) w = become_candidate-Moved env n w small
Step-Moved {n} (election_won small) w = become_leader-Moved n w small
Step-Moved {n} (stepped_down env term leader_id) w = become_follower-Moved env term leader_id n w
Step-Moved {n} heartbeats_sent w = maybe_send_heartbeats-Moved n w
Step-Moved {n} (peer_answered env peer_id req resp) w =
    replicate_response-Moved env peer_id req resp n w
Step-Moved {n} (proposed payload caller small) w = propose-Moved payload caller n w small
Step-Moved {n} (entry_delivered e le) w = deliver-Moved e n w le
Step-Moved {n} ticked w = Moved-same_log w (ground arith) (ground arith)
Step-Moved {n} (timed_out env) w = Moved-same_log w (ground arith) (ground arith)
Step-Moved {n} (timings_updated e h) w = Moved-same_log w (ground arith) (ground arith)
Step-Moved {n} (started env) w = Moved-same_log w (ground arith) (ground arith)
Step-Moved {n} stopped w = Moved-same_log w (ground arith) (ground arith)

-- From a state with a well-formed log, after any steps in any order, over any disk: the log is well
-- formed, every entry that was committed is still in its place, and neither the commit index nor
-- the term has moved back.
pub Run-keeps_log : {n m : Node} → Run n m → IsWellFormed n.log → Moved n m
Run-keeps_log here w = Moved-same_log w refl (omega arith)
Run-keeps_log (next run step) w =
    let before = Run-keeps_log run w in Moved-trans before (Step-Moved step before.well_formed)
