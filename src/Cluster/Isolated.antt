-- ===== src/Cluster/Isolated.antt =====
-- transport/inmem.go under chaos/partition.go: what a node behind a partition can do.
use raftly.Common.{
  ℕ, ◌+◌, ◌≡◌, refl, ◌∙◌, List, [], ◌∷◌, map, Option, none, some, get_or, false, leb, u64, Bytes,
  All, inl, ◌⊎◌, arith,
}
use raftly.Message.{VoteRequest, VoteResponse, AppendEntriesRequest}
use raftly.Node.{Node, Peer, Env, is_leader, become_candidate, become_follower, quorum}
use raftly.Proxy.{NetworkProxy}
use raftly.Proxy.Rules.{Silent}
use raftly.Chaos.{ChaosInjector, partition_node}
use raftly.Chaos.Partition.{partition_isolates}
use raftly.Campaign.{Arrival, Round, failed_call, no_peers, election}
use raftly.Campaign.Quiet.{granted, IsQuiet, quorum-peers_lt, quiet_election}
use raftly.Cluster.{Registry, Surroundings, apply_proxy, send_request_vote, send_append_entries}

cut_off :
    (s : Surroundings) (node_id : Bytes) (c : ChaosInjector) (from to : Bytes)
    → (from ≡ node_id) ⊎ (to ≡ node_id)
    → Silent c.proxy.rules from to
    → apply_proxy s (partition_node node_id c).0.proxy from to ≡ false
unfolding apply_proxy
cut_off s node_id c from to touches quiet =
    rw (apply_proxy, partition_isolates s.roll node_id c from to touches quiet) refl

-- Behind a partition that no earlier rule weakens, requests for votes and for appends are errors to
-- the sender, and no node of the cluster changes.
isolated_calls_fail :
    (s : Surroundings) (node_id : Bytes) (c : ChaosInjector) (from to : Bytes) (vote : VoteRequest)
    (entries : AppendEntriesRequest) (r : Registry)
    → (from ≡ node_id) ⊎ (to ≡ node_id)
    → Silent c.proxy.rules from to
    → (send_request_vote s (partition_node node_id c).0.proxy from to vote r ≡ (r, none))
      × (send_append_entries s (partition_node node_id c).0.proxy from to entries r
          ≡ some (r, none))
unfolding send_request_vote send_append_entries
isolated_calls_fail s node_id c from to vote entries r touches quiet =
    let p = cut_off s node_id c from to touches quiet in
    (rw (send_request_vote, p) refl, rw (send_append_entries, p) refl)

-- The response that a campaign gets for a call, with nothing happening to the node around it.
abbrev pub answered : Env → Option VoteResponse → Arrival
answered env resp = record {
  response = get_or resp failed_call;
  env = env;
  before = λ n. n;
  after = λ n. n;
}

-- The calls of a campaign through the proxy, one to each peer.
abbrev pub asked : Surroundings → NetworkProxy → VoteRequest → Registry → List Peer → List Arrival
asked s proxy req r peers =
    map (λ p. answered s.env (send_request_vote s proxy req.candidate_id p.id req r).1) peers

no_answers :
    (s : Surroundings) (c : ChaosInjector) (req : VoteRequest) (r : Registry) (term : ℕ)
    (peers : List Peer)
    → c.proxy.rules ≡ []
    → (granted (asked s (partition_node req.candidate_id c).0.proxy req r peers) ≡ 0)
      × All (IsQuiet term) (asked s (partition_node req.candidate_id c).0.proxy req r peers)
unfolding send_request_vote
no_answers s c req r term [] clean = (refl, tt)
no_answers s c req r term (p ∷ ps) clean =
    let gone = cut_off s req.candidate_id c req.candidate_id p.id (inl refl) (rw clean tt) in
    let rest = no_answers s c req r term ps clean in
    rw (send_request_vote, gone) (rest.0, (((λ n. refl), (λ n. refl), omega arith), rest.1))

-- A node with peers stands for election, and the candidate that its request names is behind a
-- partition set on a proxy without rules, while nothing else happens to the node: it does not win,
-- and ends as a follower, in the next term.
pub isolated_node_loses :
    (s : Surroundings) (c : ChaosInjector) (req : VoteRequest) (r : Registry) (env end_env : Env)
    (n : Node)
    → c.proxy.rules ≡ []
    → is_leader n.state ≡ false
    → no_peers n.peers ≡ false
    → election
        (record {
          start = env;
          between = λ m. m;
          arrivals = asked s (partition_node req.candidate_id c).0.proxy req r n.peers;
          end = end_env;
        })
        n
      ≡ become_follower end_env (u64 (n.current_term + 1)) [] (become_candidate env n)
isolated_node_loses s c req r env end_env n clean idle many =
    let (nobody, quiet) = no_answers s c req r (u64 (n.current_term + 1)) n.peers clean in
    let round : Round = record {
      start = env;
      between = λ m. m;
      arrivals = asked s (partition_node req.candidate_id c).0.proxy req r n.peers;
      end = end_env;
    } in
    let short : leb (quorum n) (1 + granted round.arrivals) ≡ false =
      ground (arith, quorum-peers_lt n many) in
    quiet_election round n idle (λ m. refl) quiet ∙ rw short refl
