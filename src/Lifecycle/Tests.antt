-- ===== src/Lifecycle/Tests.antt =====
-- raft/node.go: the theorems about restarts and snapshots at small inputs.
use raftly.Common.{◌≡◌, refl, List, [], ◌∷◌, true}
use raftly.Sample.{runs, n1, n2, entry_at}
use raftly.Wal.Record.{WalRecord, state}
use raftly.Wal.Recovery.{frames}
use raftly.Wal.Ops.{sync, open_wal}
use raftly.Wal.Durable.Session.{Save, put_state, put_entries, do_sync, session}

abbrev old : List WalRecord
old = state 1 n1 ∷ []

abbrev saves : List Save
saves = put_entries (entry_at 1 1 ∷ entry_at 2 1 ∷ []) ∷ do_sync ∷ put_state 2 n2 ∷ []

last_sync : (sync (session saves (open_wal [] (frames old) []))).1 ≡ true
unfolding runs
last_sync = refl
