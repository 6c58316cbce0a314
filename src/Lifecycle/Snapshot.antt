-- ===== src/Lifecycle/Snapshot.antt =====
-- raft/node.go: `LogSnapshot`.
use raftly.Common.{
  ℕ, take_all, drop_all, ◌+◌, ◌-◌, ◌^◌, ◌<◌, ◌≡◌, refl, sym, false, drop, length, length-drop,
  Bool-cases, ltb, ◌==◌, ◌||◌, inl, inr, min, u64, if◌then◌else◌, some, arith,
}
use raftly.Log.{RaftLog, last_index, get_entries}
use raftly.Log.Shape.{IsWellFormed, last_index-length}
use raftly.Node.{Node}
use raftly.Lifecycle.{log_snapshot}

get_entries-drop :
    (l : RaftLog) (from to : ℕ)
    → from < length l.entries
    → to ≡ length l.entries
    → get_entries l from to ≡ some (drop from l.entries)
unfolding get_entries
get_entries-drop l from to lt p =
    ground (arith, take_all (to - from) (drop from l.entries), length-drop from l.entries)

-- The index that the slice starts from.
abbrev first_shown : ℕ → ℕ → ℕ
first_shown limit last = if ltb limit last then last - limit + 1 else 1

shown :
    (limit : ℕ) (n : Node)
    → IsWellFormed n.log
    → length n.log.entries < 2 ^ 64
    → (last_index n.log == 0 || limit == 0) ≡ false
    → log_snapshot limit n ≡ drop (first_shown limit (last_index n.log)) n.log.entries
unfolding log_snapshot
shown limit n w small some_left =
    let e = last_index-length w in
    let first = first_shown limit (last_index n.log) in
    let got =
      get_entries-drop n.log first (u64 (last_index n.log + 1)) (ground (arith, e))
        (omega (arith, e)) in
    rw (log_snapshot, some_left, got) refl

-- The snapshot is the end of the log: the last entries, as many as asked for, or all but the
-- sentinel.
pub log_snapshot-drop :
    (limit : ℕ) (n : Node)
    → IsWellFormed n.log
    → length n.log.entries < 2 ^ 64
    → (log_snapshot limit n
        ≡ drop (length n.log.entries - min limit (last_index n.log)) n.log.entries)
      × (length (log_snapshot limit n) ≡ min limit (last_index n.log))
unfolding log_snapshot
log_snapshot-drop limit n w small =
    let e = last_index-length w in
    let start = length n.log.entries - min limit (last_index n.log) in
    elim (Bool-cases (last_index n.log == 0 || limit == 0)) [
      | inl empty ↦
          let z : min limit (last_index n.log) ≡ 0 = ground arith in
          rw (log_snapshot, empty, z)
            (sym (drop_all (length n.log.entries - 0) n.log.entries (omega arith)), refl)
      | inr some_left ↦
          let at : first_shown limit (last_index n.log) ≡ start = ground (arith, e) in
          rw (shown limit n w small some_left, at)
            (refl, omega (arith, length-drop start n.log.entries, e))
    ]
