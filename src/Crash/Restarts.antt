-- ===== src/Crash/Restarts.antt =====
-- chaos/crash.go over raft/: what a crash loses.
use raftly.Common.{
  ◌≡◌, refl, sym, ◌∙◌, ap, List, ◌++◌, Option, some, true, Bytes, All, Bool-cases, inl, inr,
}
use raftly.Node.{Node, Env}
use raftly.Wal.File.{Wal, Call, flush}
use raftly.Wal.Ops.{close, open_wal}
use raftly.Wal.Record.{WalRecord}
use raftly.Wal.Record.Decode.{IsStorable}
use raftly.Wal.Read.{read_all}
use raftly.Wal.Recovery.{frames}
use raftly.Wal.Durable.Session.{Save, session, all_saved, flushed_is_recovered}
use raftly.Lifecycle.{start, stop}
use raftly.Lifecycle.Restart.{Restarted, restarts}
use raftly.Proxy.{Roll, clear_rules, should_deliver, decide}
use raftly.Chaos.{ChaosInjector, heal}
use raftly.Cluster.{find_node}
use raftly.Cluster.Nodes.{find_node-set_node}
use raftly.Crash.{Harness, crash_node, restart_node, node_config, Disk, node_factory}

-- The file after `Close`, which flushes first.
close-file : (w : Wal) → ((close w).0.file ≡ (flush w).0.file) × ((close w).1 ≡ (flush w).1)
unfolding close
close-file w = elim (Bool-cases (flush w).1) [
  | inl flushed ↦ rw (close, flushed) (refl, refl)
  | inr failed ↦ rw (close, failed) (refl, refl)
]

start-Restarted :
    (env : Env) (rs : List WalRecord) (n : Node) → Restarted rs n → Restarted rs (start env n)
unfolding start
start-Restarted env rs n r = record {
  term = r.term;
  vote = r.vote;
  entries = r.entries;
  well_formed = r.well_formed;
}

crashed :
    (id : Bytes) (h : Harness) (n : Node)
    → find_node id h.nodes ≡ some n
    → find_node id (crash_node id h).0.nodes ≡ some (stop n)
unfolding crash_node
crashed id h n there = rw (crash_node, there) (find_node-set_node id (stop n) h.nodes)

made :
    (factory : Bytes → Option Node) (env : Env) (id : Bytes) (h : Harness) (m : Node)
    → factory id ≡ some m
    → (find_node id (restart_node (some factory) env id h).nodes ≡ some (start env m))
      × ((restart_node (some factory) env id h).injector ≡ heal h.injector)
unfolding restart_node
made factory env id h m makes =
    rw (restart_node, makes) (find_node-set_node id (start env m) h.nodes, refl)

-- A node has made any calls of `SaveState`, `SaveEntries` and `Sync` over a disk that may fail, with
-- the errors passed over. It is crashed, its file can be flushed then, and it is restarted from the
-- file that it leaves. Then it starts with the state of every record that was saved, also of those
-- that were never synced, and no rule of the proxy is left, neither the crash's nor an earlier one.
pub crash_loses_nothing :
    (data_dir : Bytes) (node_ids : List Bytes) (disk : Disk) (env : Env) (id : Bytes) (h : Harness)
    (n : Node) (path : Bytes) (rs : List WalRecord) (calls : List Call) (ss : List Save)
    (roll : Roll) (from to : Bytes)
    → find_node id h.nodes ≡ some n
    → n.wal ≡ session ss (open_wal path (frames rs) calls)
    → All IsStorable (rs ++ all_saved ss)
    → (close n.wal).1 ≡ true
    → (disk id).1 ≡ (stop n).wal.file
    → (m : Node) × (find_node id
          (restart_node
            (some (node_factory data_dir node_ids disk))
            env
            id
            (crash_node id h).0).nodes
        ≡ some m)
      × Restarted (rs ++ all_saved ss) m
      × (should_deliver roll
            (restart_node
              (some (node_factory data_dir node_ids disk))
              env
              id
              (crash_node id h).0).injector.proxy
            from
            to
          ≡ (true, 0))
unfolding node_factory stop heal clear_rules should_deliver decide
crash_loses_nothing data_dir node_ids disk env id h n path rs calls ss roll from to there wal
      storable closes on_disk =
    let w = session ss (open_wal path (frames rs) calls) in
    let flushes : (flush w).1 ≡ true =
      ap (λ v. (flush v).1) (sym wal) ∙ sym (close-file n.wal).1 ∙ closes in
    let file : (disk id).1 ≡ (flush w).0.file =
      on_disk ∙ (close-file n.wal).0 ∙ ap (λ v. (flush v).0.file) wal in
    let reads = ap read_all file ∙ flushed_is_recovered path rs calls ss storable flushes in
    let (m, makes, restarted) =
      restarts (node_config data_dir node_ids id) (disk id).0 (disk id).1 (disk id).2
        (rs ++ all_saved ss) reads in
    let (found_m, healed) =
      made (node_factory data_dir node_ids disk) env id (crash_node id h).0 m makes in
    (
      start env m,
      found_m,
      start-Restarted env (rs ++ all_saved ss) m restarted,
      ap (λ (c : ChaosInjector). should_deliver roll c.proxy from to) healed,
    )
