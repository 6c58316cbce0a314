-- ===== src/Leader/Tests.antt =====
-- raft/replication.go: the theorems about the leader at small inputs.
use raftly.Common.{zero, suc, ◌≡◌, ◌↔◌, refl, [], ◌∷◌, true, false, none, some, arith}
use raftly.Config.{leader}
use raftly.Log.{sentinel, get_entries}
use raftly.Log.{get_entry}
use raftly.Message.{AppendEntriesRequest, AppendEntriesResponse}
use raftly.Node.{Node, Peer, quorum}
use raftly.Sample.{result, is_some, result_lem, runs, n1, n2, n3, env, node, entry_at}
use raftly.Replication.{handle_append_entries}
use raftly.Leader.{
  quorum_match_index, sort, insert_sorted, commit_at, maybe_commit, replicate_request,
  replicate_response, prev_term, entries_from,
}
use raftly.Leader.Commit.{Committable, maybe_commit_iff}
use raftly.Leader.Round.{SameAt, replicated_round}
use raftly.Leader.Backup.{Lacks, conflict_stalls}

-- The leader of term 6: entry 1 is of term 1, entry 2 of its own.
abbrev leading : Node
leading = record node {
  current_term = 6;
  state = leader;
  leader_id = n1;
  log = record {
    entries = sentinel ∷ entry_at 1 1 ∷ entry_at 2 6 ∷ [];
    commit_index = 0;
    last_applied = 0;
  };
  peers =
      record { id = n2; next_index = 2; match_index = 0 }
      ∷ record { id = n3; next_index = 3; match_index = 2 }
      ∷ [];
}

maybe_commit_iff_example : ((maybe_commit leading).log.commit_index ≡ 2) ↔ Committable leading 2
maybe_commit_iff_example = maybe_commit_iff leading 2 (omega arith)

commits : (maybe_commit leading).log.commit_index ≡ 2
unfolding runs maybe_commit quorum_match_index quorum sort insert_sorted commit_at
commits = refl

abbrev to_n2 : Peer
to_n2 = record { id = n2; next_index = 2; match_index = 0 }

abbrev sent_message : AppendEntriesRequest
sent_message = record {
  term = 6;
  leader_id = n1;
  prev_log_index = 1;
  prev_log_term = 1;
  entries = entry_at 2 6 ∷ [];
  leader_commit = 0;
}

sends : replicate_request n2 leading ≡ some sent_message
unfolding runs replicate_request prev_term entries_from get_entries
sends = refl

abbrev follows : Node × AppendEntriesResponse
follows = result (handle_append_entries env sent_message node)

no_panic : is_some (handle_append_entries env sent_message node) ≡ true
unfolding runs
no_panic = refl

handles : handle_append_entries env sent_message node ≡ some (follows.0, follows.1)
handles = result_lem (handle_append_entries env sent_message node) no_panic

succeeded : follows.1.success ≡ true
unfolding runs
succeeded = refl

replicated_round_example : SameAt leading.log follows.0.log 2
unfolding runs
replicated_round_example =
    replicated_round env n2 leading node {p = to_n2} {req = sent_message} (omega arith) refl refl
      (omega arith) (omega arith) (omega arith) (omega arith) sends handles succeeded 2
      (omega arith) (omega arith) (omega arith)

-- The follower's entry 1 is of term 5, of a leader that has seen no other.
abbrev refusal_of_5 : AppendEntriesResponse
refusal_of_5 = record { term = 6; success = false; conflict_term = 5; conflict_index = 1 }

no_entry_of_5 : Lacks leading.log 5
unfolding get_entry
no_entry_of_5 zero e found same = ground arith
no_entry_of_5 (suc zero) e found same = ground arith
no_entry_of_5 (suc (suc zero)) e found same = ground arith
no_entry_of_5 (suc (suc (suc i))) e found same = absurd (cc)

-- The leader after that refusal, and after a proposal.
abbrev with_more : Node
with_more = record (replicate_response env n2 sent_message refusal_of_5 leading) {
  log = record (leading.log) {
    entries = sentinel ∷ entry_at 1 1 ∷ entry_at 2 6 ∷ entry_at 3 6 ∷ [];
  };
}

conflict_stalls_example : replicate_request n2 with_more ≡ none
unfolding runs
conflict_stalls_example =
    conflict_stalls env n2 leading {p = to_n2} sent_message refusal_of_5 refl refl refl
      (omega arith) refl no_entry_of_5 (omega arith) with_more refl (omega arith) (omega arith)
