-- ===== src/Campaign.antt =====
-- raft/election.go: `campaign`. The mutex is given up while the candidate waits for a response, and
-- once more before a won election is acted on. What the other goroutines do to the node in those
-- gaps is a function from states to states.
pub mod Quiet
pub mod Enough
pub mod Race
mod Tests
use raftly.Common.{
  ℕ, suc, ◌+◌, List, [], ◌∷◌, Bool, true, false, not, ◌||◌, ◌&&◌, Bytes, map, ltb, leb, ◌==◌, u64,
  if◌then◌else◌,
}
use raftly.Config.{pre_candidate}
use raftly.Log.{last_index, last_term}
use raftly.Message.{VoteRequest, VoteResponse}
use raftly.Node.{
  Node, Env, Peer, is_leader, is_candidate, is_pre_candidate, become_follower, become_candidate,
  become_leader, quorum,
}

-- A response from the channel; a failed call is a response of term 0 that grants nothing.
pub record Arrival : Type 0 where
  pub response : VoteResponse
  pub env : Env
  pub before : Node → Node  -- what happens to the node before the response is looked at
  pub after : Node → Node  -- and before the lock is taken again to act on a won vote

abbrev pub failed_call : VoteResponse
failed_call = record { term = 0; vote_granted = false }

pub data Tally : Type 0 where
  aborted : Node → Tally
  won : Node → Tally
  lost : Node → Tally

-- The node has moved on while the votes were collected.
unfoldable pub moved_on : Bool → ℕ → Node → Bool
moved_on pre_vote campaign_term n =
    if pre_vote
    then not (is_pre_candidate n.state)
    else not (is_candidate n.state) || not (n.current_term == campaign_term)

-- The loop over the responses, with the votes so far.
unfoldable pub tally : Bool → ℕ → ℕ → ℕ → List Arrival → Node → Tally
tally pre_vote campaign_term needed votes [] n = lost n
tally pre_vote campaign_term needed votes (a ∷ later) n =
    let m = a.before n in
    let votes1 = if a.response.vote_granted then suc votes else votes in
    let rest = tally pre_vote campaign_term needed votes1 later m in
    if moved_on pre_vote campaign_term m
    then aborted m
    else if ltb m.current_term a.response.term
    then aborted (become_follower a.env a.response.term [] m)
    else if leb needed votes1
    then won (a.after m)
    else rest

-- After the loop: `between` is what happens to the node before the lock is taken again.
unfoldable pub lost_election : Env → Node → Node
lost_election env n =
    if is_candidate n.state || is_pre_candidate n.state
    then become_follower env n.current_term [] n
    else n

-- What the goroutines of the other nodes and of this one do around a campaign.
pub record Round : Type 0 where
  pub start : Env
  pub between : Node → Node  -- before the lock is taken again in a cluster of one, or after the loop
  pub arrivals : List Arrival
  pub end : Env

abbrev pub no_peers : List Peer → Bool
no_peers [] = true
no_peers (p ∷ ps) = false

-- The request that is sent to each peer.
unfoldable pub ballot : Bool → Node → VoteRequest
ballot pre_vote n = record {
  term = if pre_vote then u64 (n.current_term + 1) else n.current_term;
  candidate_id = n.id;
  last_log_index = last_index n.log;
  last_log_term = last_term n.log;
  pre_vote = pre_vote;
}

unfoldable pub conclude : Env → (Node → Node) → (Node → Node) → Tally → Node
conclude env between act (aborted n) = n
conclude env between act (won n) = act n
conclude env between act (lost n) = lost_election env (between n)

-- `campaign(false)`
unfoldable pub election : Round → Node → Node
election r n =
    let c = become_candidate r.start n in
    if is_leader n.state
    then n
    else if no_peers n.peers
    then become_leader (r.between c)
    else conclude r.end r.between become_leader
        (tally false c.current_term (quorum c) 1 r.arrivals c)

-- `campaign(true)`, with the round of the election that follows a pre-vote that is won.
unfoldable pub pre_vote : Round → Round → Node → Node
pre_vote r real n =
    let c = record n { state = pre_candidate } in
    let term = u64 (n.current_term + 1) in
    if is_leader n.state
    then n
    else if no_peers n.peers
    then election real (r.between c)
    else conclude r.end r.between (election real) (tally true term (quorum c) 1 r.arrivals c)

unfoldable pub campaign : Bool → Round → Round → Node → Node
campaign with_pre_vote r real n = if with_pre_vote then pre_vote r real n else election real n
