-- ===== src/Wal/Durable/Tests.antt =====
-- raft/persistence.go: two sessions over a small file, one of them cut off by the disk.
use raftly.Common.{
  ℕ, ◌≤◌, ◌≡◌, refl, List, [], ◌∷◌, ◌++◌, some, none, Option, Bool, true, length, take, arith,
}
use raftly.Sample.{runs, n1, n2, entry_at}
use raftly.Wal.Ops.Truncate.{truncated, truncate_from_lem}
use raftly.Wal.Record.{Recovered, entry, WalRecord, state, nothing}
use raftly.Wal.Read.{recovered, read_all}
use raftly.Wal.Recovery.{frames, replay_all}
use raftly.Wal.File.{Call, Wal}
use raftly.Wal.Ops.{open_wal, sync, truncate_from}
use raftly.Wal.Durable.Session.{
  Save, put_state, put_entries, do_sync, session, all_saved, session_recovers_prefix,
  synced_is_recovered,
}

abbrev old : List WalRecord
old = state 1 n1 ∷ []

abbrev saves : List Save
saves = put_entries (entry_at 1 1 ∷ entry_at 2 1 ∷ []) ∷ do_sync ∷ put_state 2 n2 ∷ do_sync ∷ []

-- The first write stops in the middle of the second entry.
abbrev failing : List Call
failing = some 45 ∷ []

session_recovers_prefix_example :
    (k : ℕ) × (k ≤ length (old ++ all_saved saves))
    × (read_all (session saves (open_wal [] (frames old) failing)).file
        ≡ recovered (replay_all nothing (take k (old ++ all_saved saves))))
session_recovers_prefix_example = session_recovers_prefix [] old failing saves (omega arith)

last_sync : (sync (session saves (open_wal [] (frames old) []))).1 ≡ true
unfolding runs
last_sync = refl

synced_is_recovered_example :
    read_all (sync (session saves (open_wal [] (frames old) []))).0.file
    ≡ recovered (replay_all nothing (old ++ all_saved saves))
synced_is_recovered_example = synced_is_recovered [] old [] saves (omega arith) last_sync

abbrev filled : Wal
filled = open_wal [] (frames (state 1 n1 ∷ entry (entry_at 1 1) ∷ entry (entry_at 2 1) ∷ [])) []

abbrev wal_of : Option (Wal × Bool) → Wal
wal_of none = filled
wal_of (some q) = q.0

abbrev in_file : Recovered
in_file = record { term = 1; voted_for = n1; entries = entry_at 1 1 ∷ entry_at 2 1 ∷ [] }

reads : read_all filled.file ≡ recovered in_file
unfolding runs
reads = refl

truncates : truncate_from 2 filled ≡ some (wal_of (truncate_from 2 filled), true)
unfolding runs
truncates = refl

truncate_from_lem_example :
    read_all (wal_of (truncate_from 2 filled)).file ≡ recovered (truncated 2 in_file)
truncate_from_lem_example = truncate_from_lem 2 filled in_file reads (omega arith) truncates
