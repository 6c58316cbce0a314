-- ===== src/Crash/Tests.antt =====
-- chaos/crash.go, scenarios/scenario.go: a crash of a node with a save that was not synced.
use raftly.Common.{◌≡◌, refl, [], ◌∷◌, ◌++◌, List, some, true, str_eq, arith}
use raftly.Sample.{runs, env, node, n1, n2, entry_at}
use raftly.Node.{Node}
use raftly.Wal.Ops.{open_wal, close}
use raftly.Wal.Record.{WalRecord, state}
use raftly.Wal.Recovery.{frames}
use raftly.Wal.Durable.Session.{Save, put_state, put_entries, session, all_saved}
use raftly.Lifecycle.{stop, status}
use raftly.Lifecycle.Restart.{Restarted}
use raftly.Chaos.{new_chaos_injector}
use raftly.Proxy.{new_network_proxy, Roll, should_deliver}
use raftly.Cluster.{find_node}
use raftly.Crash.{
  Harness, crash_node, restart_node, Disk, node_factory, nodes_consistent, new_cluster, start_all,
  stop_all,
}
use raftly.Crash.Restarts.{crash_loses_nothing}

abbrev old : List WalRecord
old = state 1 n1 ∷ []

abbrev saves : List Save
saves = put_entries (entry_at 1 1 ∷ []) ∷ put_state 2 n2 ∷ []

abbrev victim : Node
victim = record node { wal = session saves (open_wal [] (frames old) []) }

abbrev harness : Harness
harness = record {
  injector = record { proxy = record { rules = [] }; rule_counter = 0 };
  nodes = (n1, victim) ∷ (n2, node) ∷ [];
}

abbrev disk : Disk
disk id = ([], (stop victim).wal.file, [])

abbrev roll : Roll
roll = record { jitter = 0; loss = 0 }

victim_closes : (close victim.wal).1 ≡ true
unfolding runs close
victim_closes = refl

victim_is_there : find_node n1 harness.nodes ≡ some victim
unfolding str_eq
victim_is_there = refl

crash_loses_nothing_example :
    (m : Node) × (find_node n1
        (restart_node
          (some (node_factory [] (n1 ∷ n2 ∷ []) disk))
          env
          n1
          (crash_node n1 harness).0).nodes
      ≡ some m)
    × Restarted (old ++ all_saved saves) m
    × (should_deliver roll
          (restart_node
            (some (node_factory [] (n1 ∷ n2 ∷ []) disk))
            env
            n1
            (crash_node n1 harness).0).injector.proxy
          n1
          n2
        ≡ (true, 0))
crash_loses_nothing_example =
    crash_loses_nothing [] (n1 ∷ n2 ∷ []) disk env n1 harness victim [] old [] saves roll n1 n2
      victim_is_there refl (omega arith) victim_closes refl

an_empty_cluster :
    new_cluster [] [] disk ≡ some (record harness { nodes = stop_all (start_all env []) })
unfolding new_cluster new_chaos_injector new_network_proxy
an_empty_cluster = refl

consistent : nodes_consistent harness.nodes ≡ true
unfolding nodes_consistent status
consistent = refl
