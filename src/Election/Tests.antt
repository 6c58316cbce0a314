-- ===== src/Election/Tests.antt =====
-- raft/election.go: the theorems about votes at small inputs.
use raftly.Common.{◌≡◌, ◌↔◌, refl, List, [], ◌∷◌, Bytes, All, some, true, arith}
use raftly.Sample.{runs, n2, n3, env, node, vote_request, entries_message}
use raftly.Message.{AppendEntriesRequest, AppendEntriesResponse}
use raftly.Node.{Env, become_follower}
use raftly.Message.{VoteRequest}
use raftly.Replication.{handle_append_entries}
use raftly.Election.{is_log_up_to_date, handle_request_vote}
use raftly.Election.Vote.{Eligible, VoteEffect, vote_granted_iff, handle_request_vote_effect}
use raftly.Election.Once.{granted_to, one_candidate}
use raftly.Election.Twice.{votes_twice}

vote_granted_iff_example :
    ((handle_request_vote env (vote_request n2 1) node).1.vote_granted ≡ true)
    ↔ Eligible (vote_request n2 1) node
vote_granted_iff_example = vote_granted_iff env (vote_request n2 1) node

handle_request_vote_effect_example :
    VoteEffect
      (vote_request n2 1)
      node
      (handle_request_vote env (vote_request n2 1) node).0
      (handle_request_vote env (vote_request n2 1) node).1.vote_granted
handle_request_vote_effect_example = handle_request_vote_effect env (vote_request n2 1) node

abbrev two_requests : List (Env × VoteRequest)
two_requests = (env, vote_request n2 1) ∷ (env, vote_request n3 4) ∷ []

one_candidate_example : (c : Bytes) × All (λ x. x ≡ c) (granted_to node two_requests)
one_candidate_example =
    one_candidate node two_requests ((λ e. ground arith), ((λ e. ground arith), tt))

abbrev far_message : AppendEntriesRequest
far_message = record entries_message { prev_log_index = 9 }

votes_twice_example :
    let m1 = (handle_request_vote env (vote_request n2 2) node).0 in
    let m2 = become_follower env far_message.term far_message.leader_id m1 in
    ((handle_request_vote env (vote_request n2 2) node).1.vote_granted ≡ true)
    × ((r : AppendEntriesResponse) × (handle_append_entries env far_message m1 ≡ some (m2, r)))
    × ((handle_request_vote env (vote_request n3 2) m2).1.vote_granted ≡ true)
unfolding runs is_log_up_to_date
votes_twice_example =
    votes_twice env node (vote_request n2 2) (vote_request n3 2) far_message refl (omega arith) refl
      refl (λ e. ground arith) (omega arith) refl refl refl
