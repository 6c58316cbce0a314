-- ===== src/Replication.antt =====
-- raft/replication.go: the follower's side, `handleAppendEntries`.
pub mod Grown
pub mod Matching
pub mod Follower
pub mod Safety
pub mod Callers
pub mod Refused
mod Tests
use raftly.Common.{
  ℕ, zero, suc, ◌+◌, List, [], ◌∷◌, Option, none, some, get_or, Bool, true, false, ltb, ◌==◌, u64,
  if◌then◌else◌, ◌>>=◌,
}
use raftly.Log
use raftly.Log.{LogEntry, RaftLog, last_index, get_entry, append, commit_to}
use raftly.Wal.Ops.{save_entries, sync}
use raftly.Wal.Ops
use raftly.Message.{AppendEntriesRequest, AppendEntriesResponse}
use raftly.Node.{Node, Env, apply_committed, spawn, become_follower}

abbrev pub refusal : Node → AppendEntriesResponse
refusal n = record { term = n.current_term; success = false; conflict_term = 0; conflict_index = 0 }

-- The loop that steps back from `PrevLogIndex` while the entry before has the conflicting term.
unfoldable pub conflict_start : RaftLog → ℕ → ℕ → ℕ
conflict_start l term zero = 0
conflict_start l term (suc zero) = 1
conflict_start l term (suc (suc i)) =
    let back = conflict_start l term (suc i) in
    elim (get_entry l (suc i)) [
      | none ↦ suc (suc i)
      | some e ↦ if e.term == term then back else suc (suc i)
    ]

-- The consistency check: `some` is the early return.
unfoldable pub check_prev : AppendEntriesRequest → Node → Option AppendEntriesResponse
check_prev req n =
    if req.prev_log_index == 0 then none else elim (get_entry n.log req.prev_log_index) [
      | none ↦ some (record {
        term = n.current_term;
        success = false;
        conflict_term = 0;
        conflict_index = u64 (last_index n.log + 1);
      })
      | some prev ↦
          if prev.term == req.prev_log_term
          then none
          else some (record {
            term = n.current_term;
            success = false;
            conflict_term = prev.term;
            conflict_index = conflict_start n.log prev.term req.prev_log_index;
          })
    ]

-- `SaveEntries`, `Sync`, `Append`; false is the early return with an error.
unfoldable pub save_and_append : List LogEntry → Node → Node × Bool
save_and_append es n =
    let (w1, saved) = save_entries es n.wal in
    let (w2, synced) = sync w1 in
    if saved
    then if synced
      then (record n { wal = w2; log = append n.log es }, true)
      else (record n { wal = w2 }, false)
    else (record n { wal = w1 }, false)

-- The rest of `overwrite`, after the file was truncated.
unfoldable pub overwrite_log : LogEntry → List LogEntry → Node → Node × Bool
overwrite_log e es n = elim (Log.truncate_from n.log e.index) [
  | none ↦ (n, false)
  | some l ↦ save_and_append (e ∷ es) (record n { log = l })
]

-- A conflict at `e`: the file is truncated first, then the log in memory. `none` is a panic while
-- the file is read.
unfoldable pub overwrite : LogEntry → List LogEntry → Node → Option (Node × Bool)
overwrite e es n = do
  (w, truncated) ← Ops.truncate_from e.index n.wal
  some (
      if truncated
      then overwrite_log e es (record n { wal = w })
      else (record n { wal = w }, false))

-- The loop over the entries of the request.
unfoldable pub append_entries : List LogEntry → Node → Option (Node × Bool)
append_entries [] n = some (n, true)
append_entries (e ∷ es) n =
    let skip = append_entries es n in
    elim (get_entry n.log e.index) [
      | none ↦ some (save_and_append (e ∷ es) n)
      | some existing ↦ if existing.term == e.term then skip else overwrite e es n
    ]

unfoldable pub advance_commit : ℕ → Node → Node
advance_commit leader_commit n =
    let last = last_index n.log in
    let new_commit = if ltb last leader_commit then last else leader_commit in
    if ltb n.log.commit_index leader_commit
    then spawn apply_committed (record n { log = get_or (commit_to n.log new_commit) n.log })
    else n

abbrev pub reply : ℕ → Node × Bool → Node × AppendEntriesResponse
reply leader_commit (n, false) = (n, refusal n)
reply leader_commit (n, true) = (
  advance_commit leader_commit n,
  record { term = n.current_term; success = true; conflict_term = 0; conflict_index = 0 },
)

-- `none` is a panic.
unfoldable pub handle_append_entries :
    Env → AppendEntriesRequest → Node → Option (Node × AppendEntriesResponse)
handle_append_entries env req n =
    let n1 = become_follower env req.term req.leader_id n in
    if ltb req.term n.current_term then some (n, refusal n) else elim (check_prev req n1) [
      | some conflict ↦ some (n1, conflict)
      | none ↦ do result ← append_entries req.entries n1; some (reply req.leader_commit result)
    ]
