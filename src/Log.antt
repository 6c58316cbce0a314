-- ===== src/Log.antt =====
-- raft/log.go: the in-memory log. The read-write lock makes each method one step, and is left out.
pub mod Shape
pub mod Keeps
use raftly.Common.{
  ℕ, ◌-◌, List, [], ◌∷◌, ◌++◌, Option, none, some, Bytes, length, get_elem?, take, drop, ltb, leb,
  ◌||◌, if◌then◌else◌,
}

-- `EntryType` is an `int`.
abbrev pub entry_normal : ℕ
entry_normal = 0

abbrev pub entry_config : ℕ
entry_config = 1

pub record LogEntry : Type 0 where
  pub index : ℕ  -- uint64
  pub term : ℕ  -- uint64
  pub entry_type : ℕ
  pub payload : Bytes

abbrev pub sentinel : LogEntry
sentinel = record { index = 0; term = 0; entry_type = entry_normal; payload = [] }

pub record RaftLog : Type 0 where
  pub entries : List LogEntry
  pub commit_index : ℕ
  pub last_applied : ℕ

unfoldable pub new_raft_log : RaftLog
new_raft_log = record { entries = sentinel ∷ []; commit_index = 0; last_applied = 0 }

-- `entries[len(entries)-1]`. The slice is never empty: the sentinel stays.
abbrev pub last_entry : List LogEntry → LogEntry
last_entry [] = sentinel
last_entry (e ∷ []) = e
last_entry (e ∷ f ∷ es) = last_entry (f ∷ es)

unfoldable pub last_index : RaftLog → ℕ
last_index l = (last_entry l.entries).index

unfoldable pub last_term : RaftLog → ℕ
last_term l = (last_entry l.entries).term

-- `none` is the error "index out of range".
unfoldable pub get_entry : RaftLog → ℕ → Option LogEntry
get_entry l index = get_elem? l.entries index

-- `none` is the error "invalid range".
unfoldable pub get_entries : RaftLog → ℕ → ℕ → Option (List LogEntry)
get_entries l from to =
    if leb (length l.entries) from || ltb (length l.entries) to || ltb to from
    then none
    else some (take (to - from) (drop from l.entries))

-- `Append` always returns nil.
unfoldable pub append : RaftLog → List LogEntry → RaftLog
append l es = record l { entries = l.entries ++ es }

-- `none` is the error "cannot commit beyond last log index"; the log is then unchanged.
unfoldable pub commit_to : RaftLog → ℕ → Option RaftLog
commit_to l index =
    if ltb (length l.entries - 1) index
    then none
    else some (if ltb l.commit_index index then record l { commit_index = index } else l)

-- `none` is the error "cannot truncate committed entries". The only caller passes an index that
-- `GetEntry` found, so the slice expression is never taken beyond the length.
unfoldable pub truncate_from : RaftLog → ℕ → Option RaftLog
truncate_from l index =
    if leb index l.commit_index then none else some (record l { entries = take index l.entries })

unfoldable pub set_last_applied : RaftLog → ℕ → RaftLog
set_last_applied l index = record l { last_applied = index }
