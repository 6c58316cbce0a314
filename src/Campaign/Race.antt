-- ===== src/Campaign/Race.antt =====
-- raft/election.go: the gap between the last look at the node and `becomeLeader`.
use raftly.Common.{ℕ, ◌<◌, ◌≡◌, refl, [], false, Bytes, arith}
use raftly.Config.{leader}
use raftly.Node.{Node, Env, is_leader, become_candidate, become_leader, become_follower, quorum}
use raftly.Node.Terms.{become_follower-Followed}
use raftly.Campaign.{Round, tally, won, conclude, no_peers, election}

become_leader_lem :
    (n : Node)
    → ((become_leader n).state ≡ leader)
      × ((become_leader n).current_term ≡ n.current_term)
      × ((become_leader n).voted_for ≡ n.voted_for)
unfolding become_leader
become_leader_lem n = (refl, refl, refl)

-- A candidate has won its vote, and before it takes the lock again, it follows the leader of a
-- higher term. It then leads that term, in which it did not stand and voted for nobody.
pub leads_foreign_term :
    (r : Round) (n m : Node) (env : Env) (term : ℕ) (other : Bytes)
    → is_leader n.state ≡ false
    → no_peers n.peers ≡ false
    → tally false
        (become_candidate r.start n).current_term
        (quorum (become_candidate r.start n))
        1
        r.arrivals
        (become_candidate r.start n)
      ≡ won (become_follower env term other m)
    → m.current_term < term
    → ((election r n).state ≡ leader)
      × ((election r n).current_term ≡ term)
      × ((election r n).voted_for ≡ [])
unfolding election conclude
leads_foreign_term r n m env term other idle many counted higher =
    let f = become_follower-Followed env term other m in
    let p : election r n ≡ become_leader (become_follower env term other m) =
      rw (election, idle, many, counted) refl in
    let l = become_leader_lem (become_follower env term other m) in
    rw p (ground (arith, l, f.term_of, f.vote_of))
