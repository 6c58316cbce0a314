-- ===== src/Election/Twice.antt =====
-- raft/election.go and raft/replication.go: a request of a higher term is granted in the node's own
-- term, and the leader's first message then clears the vote.
use raftly.Common.{◌+◌, u64, ◌≤◌, ◌<◌, ◌≡◌, ◌≢◌, [], none, some, true, false, inl, arith}
use raftly.Log.{last_index, get_entry}
use raftly.Message.{VoteRequest, AppendEntriesRequest, AppendEntriesResponse}
use raftly.Node.{Node, Env, become_follower}
use raftly.Node.Terms.{become_follower-Followed}
use raftly.Replication.{check_prev, handle_append_entries}
use raftly.Election.{is_log_up_to_date, handle_request_vote}
use raftly.Election.Vote.{vote_granted_iff, handle_request_vote_effect}

-- A message of a leader whose entries start beyond the end of the log is refused, and is obeyed as
-- to its term.
refused_append :
    (env : Env) (a : AppendEntriesRequest) (n : Node)
    → n.current_term ≤ a.term
    → a.prev_log_index ≢ 0
    → get_entry n.log a.prev_log_index ≡ none
    → (r : AppendEntriesResponse) × (handle_append_entries env a n
        ≡ some (become_follower env a.term a.leader_id n, r))
unfolding handle_append_entries check_prev
refused_append env a n h p e =
    let m = become_follower env a.term a.leader_id n in
    let f = become_follower-Followed env a.term a.leader_id n in
    (
      record {
        term = m.current_term;
        success = false;
        conflict_term = 0;
        conflict_index = u64 (last_index m.log + 1);
      },
      ground (arith, f.log_of),
    )

-- Two votes in one term. A node that has not voted and is behind term T grants a candidate of
-- term T; the leader of term T sends entries that the node's log is too short for; then the node
-- grants another candidate of the same term T, if its log is up to date too.
pub votes_twice :
    (env : Env) (n : Node) (r1 r2 : VoteRequest) (a : AppendEntriesRequest)
    → n.voted_for ≡ []
    → n.current_term < r1.term
    → a.term ≡ r1.term
    → r2.term ≡ r1.term
    → r2.candidate_id ≢ r1.candidate_id
    → a.prev_log_index ≢ 0
    → get_entry n.log a.prev_log_index ≡ none
    → is_log_up_to_date n r1.last_log_term r1.last_log_index ≡ true
    → is_log_up_to_date n r2.last_log_term r2.last_log_index ≡ true
    → let n1 = (handle_request_vote env r1 n).0 in
      let n2 = become_follower env a.term a.leader_id n1 in
      ((handle_request_vote env r1 n).1.vote_granted ≡ true)
      × ((r : AppendEntriesResponse) × (handle_append_entries env a n1 ≡ some (n2, r)))
      × ((handle_request_vote env r2 n2).1.vote_granted ≡ true)
unfolding is_log_up_to_date
votes_twice env n r1 r2 a v t ta t2 ne p e u1 u2 =
    let n1 = (handle_request_vote env r1 n).0 in
    let n2 = become_follower env a.term a.leader_id n1 in
    let effect = handle_request_vote_effect env r1 n in
    let f = become_follower-Followed env a.term a.leader_id n1 in
    (
      (vote_granted_iff env r1 n).1 (omega arith, inl v, u1),
      refused_append env a n1 (omega (arith, effect.term)) p (rw effect.log e),
      (vote_granted_iff env r2 n2).1 (
        ground (arith, effect.term, f.term_of),
        inl (ground (arith, effect.term, f.vote_of)),
        ground (arith, effect.log, f.log_of),
      ),
    )
