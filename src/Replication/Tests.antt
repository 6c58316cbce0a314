-- ===== src/Replication/Tests.antt =====
-- raft/replication.go: the theorems about the follower at small inputs.
use raftly.Common.{◌≡◌, refl, [], ◌∷◌, Option, none, some, Bool, true, arith}
use raftly.Wal.File.{Wal}
use raftly.Wal.Ops.{truncate_from}
use raftly.Wal.Record.{Recovered, state, entry}
use raftly.Wal.Recovery.{frames}
use raftly.Sample.{
  entry_at, empty_wal, result, is_some, result_lem, runs, env, node, entries_message,
}
use raftly.Message.{AppendEntriesResponse}
use raftly.Node.{Node}
use raftly.Replication.{handle_append_entries}
use raftly.Replication.Safety.{
  Kept, Agrees, handle_append_entries-Kept, handle_append_entries-Agrees,
}

abbrev after : Node × AppendEntriesResponse
after = result (handle_append_entries env entries_message node)

no_panic : is_some (handle_append_entries env entries_message node) ≡ true
unfolding runs
no_panic = refl

handled_message : handle_append_entries env entries_message node ≡ some (after.0, after.1)
handled_message = result_lem (handle_append_entries env entries_message node) no_panic

handle_append_entries-Kept_example : Kept node after.0
handle_append_entries-Kept_example =
    handle_append_entries-Kept env entries_message node (omega arith) (omega arith) handled_message

succeeded : after.1.success ≡ true
unfolding runs
succeeded = refl

handle_append_entries-Agrees_example : Agrees entries_message node after.0
handle_append_entries-Agrees_example =
    handle_append_entries-Agrees env entries_message node (omega arith) (omega arith)
      handled_message succeeded

-- The node with its entries in its file, of which it has committed both; it is in
-- term 2.
abbrev committed_both : Node
committed_both = record node {
  current_term = 2;
  log = record (node.log) { commit_index = 2 };
  wal = record empty_wal {
    file = frames (state 2 [] ∷ entry (entry_at 1 1) ∷ entry (entry_at 2 1) ∷ []);
  };
}

abbrev in_file : Recovered
in_file = record { term = 2; voted_for = []; entries = entry_at 1 1 ∷ entry_at 2 1 ∷ [] }

abbrev wal_of : Option (Wal × Bool) → Wal
wal_of none = empty_wal
wal_of (some q) = q.0

abbrev cut : Wal
cut = wal_of (truncate_from 2 committed_both.wal)
