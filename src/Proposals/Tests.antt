-- ===== src/Proposals/Tests.antt =====
-- raft/node.go and raft/replication.go: the theorems about proposals at small inputs.
use raftly.Common.{◌≡◌, ◌≢◌, refl, [], ◌∷◌, ◌++◌, none, some, true, Bytes, arith}
use raftly.Config.{leader}
use raftly.Log.{LogEntry, get_entry}
use raftly.Message.{AppendEntriesRequest, AppendEntriesResponse}
use raftly.Wal.Record.{Recovered, nothing}
use raftly.Wal.Read.{recovered, read_all}
use raftly.Wal.Recovery.{replay_all}
use raftly.Node.{Node}
use raftly.Sample.{result, is_some, result_lem, runs, env, node, entry_at, n2, empty_wal}
use raftly.Replication.{handle_append_entries}
use raftly.Proposals.{wal_sync_failed, waiting, proposed, propose, apply_committed}
use raftly.Proposals.Applied.{pending, apply_committed-Applied}
use raftly.Proposals.Duplicate.{refused_entry_is_recovered}
use raftly.Proposals.Overwritten.{IsTold, overwritten_caller-IsTold}

abbrev leading : Node
leading = record node { state = leader; proposals = [] }

apply_committed-Applied_example :
    ((apply_committed node).commit_ch ≡ node.commit_ch ++ pending node)
    × ((apply_committed node).log.last_applied ≡ 1)
    × ((apply_committed node).log.commit_index ≡ 1)
    × ((apply_committed node).log.entries ≡ node.log.entries)
apply_committed-Applied_example = apply_committed-Applied node (omega arith) (omega arith)

abbrev payload : Bytes
payload = 120 ∷ []

-- The result of a proposal that is accepted.
abbrev after : Node
after = (propose payload 5 leading).0

accepted : propose payload 5 leading ≡ (after, waiting 3 1)
unfolding runs propose
accepted = refl

-- The first sync fails: the write goes through, the fsync does not.
abbrev unlucky : Node
unlucky = record leading { wal = record empty_wal { calls = none ∷ some 0 ∷ [] } }

abbrev refused : Node
refused = (propose payload 5 unlucky).0

refuses : propose payload 5 unlucky ≡ (refused, wal_sync_failed)
unfolding runs propose
refuses = refl

abbrev retried : Node
retried = (propose payload 6 refused).0

retries : propose payload 6 refused ≡ (retried, waiting 3 1)
unfolding runs propose
retries = refl

refused_entry_is_recovered_example :
    (r : Recovered) × (read_all retried.wal.file ≡ recovered r)
    × (r.entries
        ≡ (replay_all nothing []).entries
          ++ (proposed payload unlucky ∷ proposed payload refused ∷ []))
    × ((proposed payload unlucky).index ≡ 3)
    × ((proposed payload refused).index ≡ 3)
unfolding runs propose
refused_entry_is_recovered_example =
    refused_entry_is_recovered payload 5 payload 6 unlucky {n1 = refused} {m = retried} {index = 3}
      {term = 1} [] [] (none ∷ some 0 ∷ []) [] (omega arith) refl (omega arith) refuses retries

-- The leader of term 2 has another entry 3, and has committed it.
abbrev other_leader : AppendEntriesRequest
other_leader = record {
  term = 2;
  leader_id = n2;
  prev_log_index = 2;
  prev_log_term = 1;
  entries = entry_at 3 2 ∷ [];
  leader_commit = 3;
}

abbrev follows : Node × AppendEntriesResponse
follows = result (handle_append_entries env other_leader after)

no_panic : is_some (handle_append_entries env other_leader after) ≡ true
unfolding runs propose
no_panic = refl

handles : handle_append_entries env other_leader after ≡ some (follows.0, follows.1)
handles = result_lem (handle_append_entries env other_leader after) no_panic

overwritten_caller-IsTold_example :
    IsTold 5 (apply_committed follows.0)
    × ((f : LogEntry) × (get_entry follows.0.log 3 ≡ some f) × (f.term ≢ 1))
unfolding runs propose
overwritten_caller-IsTold_example =
    overwritten_caller-IsTold payload 5 leading {n1 = after} {index = 3} {term = 1} env other_leader
      0 (omega arith) (omega arith) accepted (omega arith) handles refl refl refl (λ e. omega arith)
      (omega arith) (omega arith)
