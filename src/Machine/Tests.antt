-- ===== src/Machine/Tests.antt =====
-- raft/node.go, raft/election.go, raft/replication.go: a run of a node.
use raftly.Common.{[], ◌∷◌, ◌≡◌, refl, some, arith}
use raftly.Sample.{runs, result, result_lem, env, node, entry_at, entries_message}
use raftly.Node.{Node, become_candidate, become_leader}
use raftly.Replication.{handle_append_entries}
use raftly.Proposals.{propose, deliver}
use raftly.Machine.{
  Run, here, next, entries_received, election_started, election_won, proposed, entry_delivered,
}
use raftly.Machine.Moves.{Moved}
use raftly.Machine.Invariant.{Run-keeps_log}

-- Entry 2 is overwritten by a leader of term 2 and committed; the node then leads term 3 itself.
abbrev followed : Node
followed = (result (handle_append_entries env entries_message node)).0

followed_lem :
    handle_append_entries env entries_message node
    ≡ some (followed, (result (handle_append_entries env entries_message node)).1)
unfolding runs
followed_lem = result_lem (handle_append_entries env entries_message node) refl

abbrev leads : Node
leads = become_leader (become_candidate env followed)

abbrev writes : Node
writes = (propose (120 ∷ []) 5 leads).0

abbrev delivers : Node
delivers = deliver (entry_at 1 1) writes

run : Run node delivers
unfolding runs propose
run =
    next
      (next
        (next
          (next (next here (entries_received env entries_message _ (omega arith) followed_lem))
            (election_started env (omega arith)))
          (election_won (omega arith)))
        (proposed (120 ∷ []) 5 (omega arith)))
      (entry_delivered (entry_at 1 1) (omega arith))

Run-keeps_log_example : Moved node delivers
Run-keeps_log_example = Run-keeps_log run (omega arith)
