-- ===== src/Wal/Ops.antt =====
-- raft/persistence.go: the methods of `WAL`. Each returns the new state and whether its error is
-- nil; `Open` is the record of an empty buffer over the bytes of the file.
pub mod Truncate
use raftly.Common.{
  ℕ, List, [], ◌∷◌, Option, none, some, Bool, true, false, Bytes, length, ltb, if◌then◌else◌,
}
use raftly.Log.{LogEntry}
use raftly.Wal.Ints.{put_uint32}
use raftly.Wal.Crc.{checksum}
use raftly.Wal.Record.{state, entry, encode, Recovered}
use raftly.Wal.Read.{recovered, panicked, stuck, read_all}
use raftly.Wal.File.{Call, Wal, sys_call, flush, buffered_write}

abbrev pub Method : Type 0
Method = Wal → Wal × Bool

-- `if err := m; err != nil { return err }`
infixl 5 ◌>>◌
abbrev pub ◌>>◌ : Method → Method → Method
◌>>◌ m k w = let (w', ok) = m w in if ok then k w' else (w', false)

-- An opened log, over the file that is there.
unfoldable pub open_wal : Bytes → Bytes → List Call → Wal
open_wal path file calls = record {
  path = path;
  file = file;
  pending = [];
  sticky = false;
  closed = false;
  calls = calls;
}

unfoldable pub write_record : Bytes → Method
write_record body = do
  λ w. buffered_write w (put_uint32 (length body))
  λ w. buffered_write w body
  λ w. buffered_write w (put_uint32 (checksum body))

unfoldable pub save_state : ℕ → Bytes → Method
save_state term voted_for = write_record (encode (state term voted_for))

unfoldable pub save_entries : List LogEntry → Method
save_entries [] w = (w, true)
save_entries (e ∷ es) w =
    let (w', ok) = write_record (encode (entry e)) w in
    let rest = save_entries es w' in if ok then rest else (w', false)

unfoldable pub save_entry : LogEntry → Method
unfolding save_entries
save_entry e = save_entries (e ∷ [])

unfoldable pub fsync : Method
fsync w = let (w', c) = sys_call w in elim c [ none ↦ (w', true) | some _ ↦ (w', false) ]

-- `Flush`, then fsync.
unfoldable pub sync : Method
sync = do flush; fsync

-- The entries that `TruncateFrom` writes back.
abbrev pub before : ℕ → List LogEntry → List LogEntry
before index [] = []
before index (e ∷ es) = let kept = before index es in if ltb e.index index then e ∷ kept else kept

-- The loop over the entries: `SaveEntry` for each that is kept.
save_before : ℕ → List LogEntry → Method
save_before index [] w = (w, true)
save_before index (e ∷ es) w =
    let (w', ok) = save_entry e w in
    let saved = save_before index es w' in
    let passed = save_before index es w in
    if ltb e.index index then (if ok then saved else (w', false)) else passed

-- The file after `Close` and `OpenFile` with O_TRUNC; a failed open leaves it closed.
reopened : Wal × Call → Wal × Bool
reopened (w, none) = (open_wal w.path [] w.calls, true)
reopened (w, some _) = (record w { closed = true }, false)

reopen : Method
unfolding reopened
reopen w = reopened (sys_call w)

rewrite : ℕ → Recovered → Method
unfolding reopen save_before
rewrite index r = do reopen; save_state r.term r.voted_for; save_before index r.entries; sync

-- `none` is a panic in `ReadAll`.
unfoldable pub truncate_from : ℕ → Wal → Option (Wal × Bool)
unfolding rewrite
truncate_from index w = if w.closed then some (w, false) else elim (read_all w.file) [
  | recovered r ↦ some (rewrite index r w)
  | panicked ↦ none
  | stuck ↦ none
]

unfoldable pub close : Method
close w = let (w', ok) = flush w in if ok then (record w' { closed = true }, true) else (w', false)
