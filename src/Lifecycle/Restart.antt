-- ===== src/Lifecycle/Restart.antt =====
-- raft/node.go: `NewRaftNode` over the file that a node left behind.
use raftly.Common.{
  ℕ, ◌≤◌, ◌≡◌, refl, sym, ◌∙◌, ap, List, [], ◌∷◌, ◌++◌, append-nil, append_assoc, some, true, Bytes,
  All, length, take, arith,
}
use raftly.Config.{Config}
use raftly.Log.{LogEntry, sentinel, append, new_raft_log}
use raftly.Log.Shape.{Contiguous, IsWellFormed}
use raftly.Wal.Record.{WalRecord, state, entry, Recovered, nothing}
use raftly.Wal.Record.Decode.{IsStorable, replay}
use raftly.Wal.Read.{recovered, read_all}
use raftly.Wal.Recovery.{frames, replay_all}
use raftly.Wal.File.{Call}
use raftly.Wal.Ops.{sync, open_wal}
use raftly.Wal.Durable.Session.{
  Save, session, all_saved, session_recovers_prefix, synced_is_recovered,
}
use raftly.Node.{Node}
use raftly.Lifecycle.{node_over, new_raft_node}

-- The last state among the records, after an earlier one, and all the entries.
abbrev pub last_state : ℕ × Bytes → List WalRecord → ℕ × Bytes
last_state s [] = s
last_state s (state term voted_for ∷ rs) = last_state (term, voted_for) rs
last_state s (entry e ∷ rs) = last_state s rs

abbrev pub entries_of : List WalRecord → List LogEntry
entries_of [] = []
entries_of (state term voted_for ∷ rs) = entries_of rs
entries_of (entry e ∷ rs) = e ∷ entries_of rs

-- A node that has the state of the records.
pub record Restarted (rs : List WalRecord) (n : Node) : Type 0 where
  pub term : n.current_term ≡ (last_state (0, []) rs).0
  pub vote : n.voted_for ≡ (last_state (0, []) rs).1
  pub entries : n.log.entries ≡ sentinel ∷ entries_of rs
  pub well_formed : Contiguous 1 (entries_of rs) → IsWellFormed n.log

replay_all-term :
    (acc : Recovered) (rs : List WalRecord)
    → ((replay_all acc rs).term ≡ (last_state (acc.term, acc.voted_for) rs).0)
      × ((replay_all acc rs).voted_for ≡ (last_state (acc.term, acc.voted_for) rs).1)
replay_all-term acc [] = (refl, refl)
replay_all-term acc (state t v ∷ rs) = replay_all-term (replay acc (state t v)) rs
replay_all-term acc (entry e ∷ rs) = replay_all-term (replay acc (entry e)) rs

replay_all-entries :
    (acc : Recovered) (rs : List WalRecord)
    → (replay_all acc rs).entries ≡ acc.entries ++ entries_of rs
replay_all-entries acc [] = sym (append-nil acc.entries)
replay_all-entries acc (state t v ∷ rs) = replay_all-entries (replay acc (state t v)) rs
replay_all-entries acc (entry e ∷ rs) =
    replay_all-entries (replay acc (entry e)) rs ∙ append_assoc acc.entries (e ∷ []) (entries_of rs)

-- `NewRaftNode` over a file that the records are recovered from.
pub restarts :
    (config : Config) (path file : Bytes) (calls : List Call) (rs : List WalRecord)
    → read_all file ≡ recovered (replay_all nothing rs)
    → (n : Node) × (new_raft_node config path file calls ≡ some n) × Restarted rs n
unfolding new_raft_node node_over append new_raft_log
restarts config path file calls rs found =
    let n = node_over config (open_wal path file calls) (replay_all nothing rs) in
    let t = replay_all-term nothing rs in
    let es : n.log.entries ≡ sentinel ∷ entries_of rs =
      ap (λ es. sentinel ∷ es) (replay_all-entries nothing rs) in
    (
      n,
      rw (new_raft_node, found) refl,
      record {
        term = t.0;
        vote = t.1;
        entries = es;
        well_formed = λ c. record {
          contiguous = (refl, rw (replay_all-entries nothing rs) c);
          commit_bound = omega arith;
          applied_bound = omega arith;
        };
      },
    )

-- After a `Sync` without an error, a node restarts with the last term and vote that were saved and
-- with every entry that was saved, in order; if their indexes count up from 1 its log is well
-- formed.
restart_recovers :
    (config : Config) (path : Bytes) (rs : List WalRecord) (calls later : List Call)
    (ss : List Save)
    → All IsStorable (rs ++ all_saved ss)
    → (sync (session ss (open_wal path (frames rs) calls))).1 ≡ true
    → (n : Node) × (new_raft_node config path
          (sync (session ss (open_wal path (frames rs) calls))).0.file
          later
        ≡ some n)
      × Restarted (rs ++ all_saved ss) n
restart_recovers config path rs calls later ss s ok =
    restarts config path _ later (rs ++ all_saved ss) (synced_is_recovered path rs calls ss s ok)

-- Whatever the disk did, a node restarts from what is in the file, with the state of some of the
-- records from the first on.
restart_after_crash :
    (config : Config) (path : Bytes) (rs : List WalRecord) (calls later : List Call)
    (ss : List Save)
    → All IsStorable (rs ++ all_saved ss)
    → (k : ℕ) × (k ≤ length (rs ++ all_saved ss))
      × ((n : Node) × (new_raft_node config path
              (session ss (open_wal path (frames rs) calls)).file
              later
            ≡ some n)
          × Restarted (take k (rs ++ all_saved ss)) n)
restart_after_crash config path rs calls later ss s =
    let (k, le, found) = session_recovers_prefix path rs calls ss s in
    (k, le, restarts config path _ later (take k (rs ++ all_saved ss)) found)
