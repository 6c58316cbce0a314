-- ===== src/Election.antt =====
-- raft/election.go: the handlers of vote requests. The mutex makes each of them one step.
pub mod UpToDate
pub mod Vote
pub mod Once
pub mod Twice
mod Tests
use raftly.Common.{ℕ, Bool, true, false, not, ◌&&◌, [], ltb, leb, ◌==◌, str_eq, if◌then◌else◌}
use raftly.Log.{last_index, last_term}
use raftly.Message.{VoteRequest, VoteResponse}
use raftly.Node.{Node, Env, become_follower, persist_state, reset_election_timer}

unfoldable pub log_is_up_to_date : ℕ → ℕ → ℕ → ℕ → Bool
log_is_up_to_date candidate_last_term candidate_last_index my_last_term my_last_index =
    if not (candidate_last_term == my_last_term)
    then ltb my_last_term candidate_last_term
    else leb my_last_index candidate_last_index

-- The method repeats the comparison of the function.
unfoldable pub is_log_up_to_date : Node → ℕ → ℕ → Bool
is_log_up_to_date n candidate_last_term candidate_last_index =
    let my_last_term = last_term n.log in
    let my_last_index = last_index n.log in
    if not (candidate_last_term == my_last_term)
    then ltb my_last_term candidate_last_term
    else leb my_last_index candidate_last_index

unfoldable pub already_voted : Node → VoteRequest → Bool
already_voted n req = not (str_eq n.voted_for []) && not (str_eq n.voted_for req.candidate_id)

abbrev pub answer : Node → Bool → Node × VoteResponse
answer n granted = (n, record { term = n.current_term; vote_granted = granted })

unfoldable pub grant : Env → VoteRequest → Node → Node
grant env req n =
    reset_election_timer env (persist_state (record n { voted_for = req.candidate_id }))

-- After a higher term was looked at.
unfoldable pub decide_vote : Env → VoteRequest → Node → Node × VoteResponse
decide_vote env req n =
    if ltb req.term n.current_term
    then answer n false
    else if already_voted n req
    then answer n false
    else if not (is_log_up_to_date n req.last_log_term req.last_log_index)
    then answer n false
    else answer (grant env req n) true

-- As in the source, a higher term in the request steps the node down in its own term.
unfoldable pub handle_request_vote : Env → VoteRequest → Node → Node × VoteResponse
handle_request_vote env req n =
    decide_vote env req
      (if ltb n.current_term req.term then become_follower env n.current_term [] n else n)

-- The handler changes nothing, and returns its reply alone.
unfoldable pub handle_pre_vote : VoteRequest → Node → VoteResponse
handle_pre_vote req n =
    if ltb req.term n.current_term
    then record { term = n.current_term; vote_granted = false }
    else if not (str_eq n.leader_id [])
    then record { term = n.current_term; vote_granted = false }
    else if not (is_log_up_to_date n req.last_log_term req.last_log_index)
    then record { term = n.current_term; vote_granted = false }
    else record { term = n.current_term; vote_granted = true }
