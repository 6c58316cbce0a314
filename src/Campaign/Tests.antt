-- ===== src/Campaign/Tests.antt =====
-- raft/election.go: the theorems about campaigns at small inputs.
use raftly.Common.{◌+◌, ◌≡◌, refl, [], ◌∷◌, true, false, leb, u64, if◌then◌else◌, arith}
use raftly.Config.{leader}
use raftly.Message.{VoteResponse}
use raftly.Node.{Node, become_candidate, become_follower, become_leader, quorum}
use raftly.Sample.{runs, n2, env, node}
use raftly.Campaign.{Arrival, Round, won, failed_call, tally, moved_on, election}
use raftly.Campaign.Quiet.{granted, quiet_election}
use raftly.Campaign.Race.{leads_foreign_term}

abbrev vote : VoteResponse
vote = record { term = 1; vote_granted = true }

abbrev quiet : VoteResponse → Arrival
quiet response = record { response = response; env = env; before = λ n. n; after = λ n. n }

abbrev round : Round
round = record {
  start = env;
  between = λ n. n;
  arrivals = quiet failed_call ∷ quiet vote ∷ [];
  end = env;
}

quiet_election_example : election round node ≡ (
    if leb (quorum node) (1 + granted round.arrivals)
    then become_leader (become_candidate env node)
    else become_follower env (u64 (1 + 1)) [] (become_candidate env node))
quiet_election_example =
    quiet_election round node refl (λ m. refl)
      ((λ n. refl, λ n. refl, omega arith), ((λ n. refl, λ n. refl, omega arith), tt))

abbrev standing : Node
standing = become_candidate env node

-- Between the deciding vote and the lock, the leader of term 9 is heard of.
abbrev disturbed : Arrival
disturbed = record (quiet vote) { after = λ n. become_follower env 9 n2 n }

abbrev disturbed_round : Round
disturbed_round = record round { arrivals = disturbed ∷ quiet failed_call ∷ [] }

counted :
    tally false standing.current_term (quorum standing) 1 disturbed_round.arrivals standing
    ≡ won (become_follower env 9 n2 standing)
unfolding runs tally moved_on quorum
counted = refl

leads_foreign_term_example :
    ((election disturbed_round node).state ≡ leader)
    × ((election disturbed_round node).current_term ≡ 9)
    × ((election disturbed_round node).voted_for ≡ [])
unfolding runs
leads_foreign_term_example =
    leads_foreign_term disturbed_round node standing env 9 n2 refl refl counted (omega arith)
