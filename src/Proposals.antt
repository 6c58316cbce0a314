-- ===== src/Proposals.antt =====
-- raft/node.go: `Propose` and `notifyProposal`; raft/replication.go: `applyCommitted`. The caller of
-- `Propose` that waits on a channel is a number; what it is told is in `notified`.
pub mod Applied
pub mod Overlap
pub mod Accepted
pub mod Overwritten
pub mod Duplicate
mod Tests
use raftly.Common.{
  ℕ, zero, suc, ◌+◌, ◌-◌, List, [], ◌∷◌, ◌++◌, Option, none, some, Bool, true, false, not, Bytes,
  leb, ◌==◌, u64, if◌then◌else◌,
}
use raftly.Log
use raftly.Log.{LogEntry, RaftLog, last_index, get_entry, append, set_last_applied}
use raftly.Wal.Ops.{save_entry, sync}
use raftly.Node.{Node, send_heartbeats, is_leader, spawn}

pub data ProposeResult : Type 0 where
  not_leader : (leader_id : Bytes) → ProposeResult
  wal_write_failed : ProposeResult
  wal_sync_failed : ProposeResult
  waiting : (index term : ℕ) → ProposeResult

abbrev pub proposed : Bytes → Node → LogEntry
proposed payload n = record {
  index = u64 (last_index n.log + 1);
  term = n.current_term;
  entry_type = Log.entry_normal;
  payload = payload;
}

-- The map of waiting callers: `delete`, a lookup, and a write.
abbrev pub without : ℕ → List (ℕ × ℕ) → List (ℕ × ℕ)
without index [] = []
without index (p ∷ ps) = let rest = without index ps in if p.0 == index then rest else p ∷ rest

abbrev pub caller_at : ℕ → List (ℕ × ℕ) → Option ℕ
caller_at index [] = none
caller_at index (p ∷ ps) = let rest = caller_at index ps in if p.0 == index then some p.1 else rest

-- Up to where the caller waits.
unfoldable pub propose : Bytes → ℕ → Node → Node × ProposeResult
propose payload caller n =
    let e = proposed payload n in
    let (w1, saved) = save_entry e n.wal in
    let (w2, synced) = sync w1 in
    if not (is_leader n.state)
    then (n, not_leader n.leader_id)
    else if not saved
    then (record n { wal = w1 }, wal_write_failed)
    else if not synced
    then (record n { wal = w2 }, wal_sync_failed)
    else (
      spawn send_heartbeats (record n {
        wal = w2;
        log = append n.log (e ∷ []);
        proposals = (e.index, caller) ∷ without e.index n.proposals;
      }),
      waiting e.index e.term,
    )

-- With a nil error, the only one that it is called with.
unfoldable pub notify_proposal : ℕ → Node → Node
notify_proposal index n = elim (caller_at index n.proposals) [
  | none ↦ n
  | some caller ↦ record n {
    notified = n.notified ++ caller ∷ [];
    proposals = without index n.proposals;
  }
]

-- The entries from `i` on, so many of them; the loop breaks at a missing one.
unfoldable pub collect : RaftLog → ℕ → ℕ → List LogEntry
collect l i zero = []
collect l i (suc count) =
    let rest = collect l (u64 (i + 1)) count in
    elim (get_entry l i) [ none ↦ [] | some e ↦ e ∷ rest ]

-- The first part of `applyCommitted`, under the lock.
unfoldable pub unapplied : Node → List LogEntry
unapplied n =
    if leb n.log.commit_index n.log.last_applied
    then []
    else collect n.log (u64 (n.log.last_applied + 1)) (n.log.commit_index - n.log.last_applied)

-- One round of the second part: the send, then under the lock the mark and the notice.
unfoldable pub deliver : LogEntry → Node → Node
deliver e n =
    notify_proposal e.index
      (record n { commit_ch = n.commit_ch ++ e ∷ []; log = set_last_applied n.log e.index })

-- The whole second part, for a node that is not stopped meanwhile.
unfoldable pub deliver_all : List LogEntry → Node → Node
deliver_all [] n = n
deliver_all (e ∷ es) n = deliver_all es (deliver e n)

-- The goroutine by itself.
unfoldable pub apply_committed : Node → Node
apply_committed n = deliver_all (unapplied n) n
