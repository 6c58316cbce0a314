-- ===== src/Node/Terms.antt =====
-- raft/node.go: what the transitions do to the term, the vote and the log.
use raftly.Common.{ℕ, ◌+◌, ◌≤◌, ◌<◌, ◌≡◌, [], Bytes, ltb, if◌then◌else◌, arith}
use raftly.Config.{follower}
use raftly.Node.{
  Node, Env, reset_election_timer, persist_state, adopt_term, become_follower,
  random_election_timeout,
}

-- What a step down leaves: a higher term is adopted with no vote, any other changes neither.
pub record Followed (term : ℕ) (n m : Node) : Type 0 where
  pub role : m.state ≡ follower
  pub term_of : m.current_term ≡ (if ltb n.current_term term then term else n.current_term)
  pub vote_of : m.voted_for ≡ (if ltb n.current_term term then [] else n.voted_for)
  pub log_of : m.log ≡ n.log
  pub id_of : m.id ≡ n.id
  pub callers_of : m.proposals ≡ n.proposals

pub become_follower-Followed :
    (env : Env) (term : ℕ) (leader_id : Bytes) (n : Node)
    → Followed term n (become_follower env term leader_id n)
unfolding become_follower adopt_term persist_state reset_election_timer
become_follower-Followed env term leader_id n = ground arith

-- The timeout lies in [base, 2 * base).
random_election_timeout_bounds :
    (env : Env) (n : Node)
    → 0 < n.config.election_timeout
    → (n.config.election_timeout ≤ random_election_timeout env n)
      × (random_election_timeout env n < n.config.election_timeout + n.config.election_timeout)
unfolding random_election_timeout
random_election_timeout_bounds env n h = omega arith
