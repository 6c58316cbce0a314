-- ===== src/Election/Vote.antt =====
-- raft/election.go: when a vote is granted, and what the grant changes.
use raftly.Common.{◌≤◌, ◌≡◌, ◌↔◌, ◌⊎◌, [], Bool, true, false, ltb, if◌then◌else◌, str_eq_iff, arith}
use raftly.Message.{VoteRequest}
use raftly.Node.{Node, Env, become_follower, adopt_term, persist_state, reset_election_timer}
use raftly.Election.{is_log_up_to_date, already_voted, grant, decide_vote, handle_request_vote}

-- The state after the first test of the handler: at most the role, the leader and the timer differ.
record SameVote (n m : Node) : Type 0 where
  term : m.current_term ≡ n.current_term
  vote : m.voted_for ≡ n.voted_for
  log : m.log ≡ n.log
  wal : m.wal ≡ n.wal
  id : m.id ≡ n.id

looked_at : Env → VoteRequest → Node → Node
looked_at env req n =
    if ltb n.current_term req.term then become_follower env n.current_term [] n else n

looked_at-SameVote : (env : Env) (req : VoteRequest) (n : Node) → SameVote n (looked_at env req n)
unfolding looked_at become_follower adopt_term reset_election_timer
looked_at-SameVote env req n = ground arith

abbrev pub Eligible : VoteRequest → Node → Type 0
Eligible req n =
    (n.current_term ≤ req.term)
    × ((n.voted_for ≡ []) ⊎ (n.voted_for ≡ req.candidate_id))
    × (is_log_up_to_date n req.last_log_term req.last_log_index ≡ true)

decide_vote_iff :
    (env : Env) (req : VoteRequest) (n : Node)
    → ((decide_vote env req n).1.vote_granted ≡ true) ↔ Eligible req n
unfolding decide_vote already_voted
decide_vote_iff env req n =
    ground (arith, str_eq_iff n.voted_for [], str_eq_iff n.voted_for req.candidate_id)

Eligible-SameVote :
    (req : VoteRequest) {n m : Node} → SameVote n m → Eligible req m ↔ Eligible req n
unfolding is_log_up_to_date
Eligible-SameVote req s = ground arith

-- A vote is granted exactly when the request's term is not behind the node's, the node's recorded
-- vote is empty or for this candidate, and the candidate's log is up to date with the node's.
pub vote_granted_iff :
    (env : Env) (req : VoteRequest) (n : Node)
    → ((handle_request_vote env req n).1.vote_granted ≡ true) ↔ Eligible req n
unfolding handle_request_vote looked_at
vote_granted_iff env req n =
    let d = decide_vote_iff env req (looked_at env req n) in
    let e = Eligible-SameVote req (looked_at-SameVote env req n) in
    (λ g. e.0 (d.0 g), λ g. d.1 (e.1 g))

-- What a request changes besides the role and the timer.
pub record VoteEffect (req : VoteRequest) (n m : Node) (granted : Bool) : Type 0 where
  pub term : m.current_term ≡ n.current_term
  pub log : m.log ≡ n.log
  pub denied : granted ≡ false → (m.voted_for ≡ n.voted_for) × (m.wal ≡ n.wal)
  pub recorded :
      granted ≡ true
      → (m.voted_for ≡ req.candidate_id)
        × (m.wal ≡ (persist_state (record n { voted_for = req.candidate_id })).wal)

decide_vote_effect :
    (env : Env) (req : VoteRequest) (n : Node)
    → VoteEffect req n (decide_vote env req n).0 (decide_vote env req n).1.vote_granted
unfolding decide_vote grant reset_election_timer persist_state
decide_vote_effect env req n = ground arith

VoteEffect-SameVote :
    (req : VoteRequest) {n n1 m : Node} {granted : Bool}
    → SameVote n n1
    → VoteEffect req n1 m granted
    → VoteEffect req n m granted
unfolding persist_state
VoteEffect-SameVote req s e = ground (arith, e.denied, e.recorded)

-- Every request leaves the node's term and log alone. A denial leaves the recorded vote and the
-- write-ahead log alone; a grant records the candidate, and saves it with the node's own term.
pub handle_request_vote_effect :
    (env : Env) (req : VoteRequest) (n : Node)
    → VoteEffect req n
        (handle_request_vote env req n).0
        (handle_request_vote env req n).1.vote_granted
unfolding handle_request_vote looked_at
handle_request_vote_effect env req n =
    VoteEffect-SameVote req (looked_at-SameVote env req n)
      (decide_vote_effect env req (looked_at env req n))
