-- ===== src/Wal/Durable/Session.antt =====
-- raft/persistence.go: any sequence of `SaveState`, `SaveEntries` and `Sync` whose errors the
-- callers pass over, over a disk that may fail at any system call.
use raftly.Common.{
  ℕ, ◌≤◌, ◌≡◌, ◌∙◌, refl, sym, ap, List, [], ◌∷◌, ◌++◌, map, Bool, true, false, Bytes, All, length,
  take, take-append, append_assoc, append-nil, arith, Bool-cases, inl, inr, if◌then◌else◌,
}
use raftly.Log.{LogEntry}
use raftly.Wal.Record.{WalRecord, state, entry, encode, nothing}
use raftly.Wal.Record.Decode.{IsStorable}
use raftly.Wal.Read.{recovered, read_all}
use raftly.Wal.Recovery.{frames, frames-append, replay_all, read_all-frames}
use raftly.Wal.Recovery.Damage.{crash_recovers_prefix, next_record-nil}
use raftly.Wal.File.{Wal, Call, flush, buffered_write, sys_call}
use raftly.Wal.File.Holds.{flush-Leaves, pending-flush}
use raftly.Wal.Ops.{write_record, save_state, save_entries, sync, fsync, open_wal}
use raftly.Wal.Durable.{Holds, Leaves-Holds, save_state-Leaves, save_entries-Leaves}

write_record_sticky : (body : Bytes) (w : Wal) → w.sticky ≡ true → write_record body w ≡ (w, false)
unfolding write_record buffered_write
write_record_sticky body w s = ground arith

-- A method that has failed for good changes nothing.
save_state_sticky : (term : ℕ) (v : Bytes) (w : Wal) → w.sticky ≡ true → (save_state term v w).0 ≡ w
unfolding save_state
save_state_sticky term v w s = rw (write_record_sticky (encode (state term v)) w s)

save_entries_sticky : (es : List LogEntry) (w : Wal) → w.sticky ≡ true → (save_entries es w).0 ≡ w
unfolding save_entries
save_entries_sticky [] w s = refl
save_entries_sticky (e ∷ es) w s = ground (arith, write_record_sticky (encode (entry e)) w s)

fsync_file :
    (w : Wal)
    → ((fsync w).0.file ≡ w.file)
      × ((fsync w).0.pending ≡ w.pending)
      × ((fsync w).0.sticky ≡ w.sticky)
unfolding fsync sys_call
fsync_file w = ground arith

fsync-Holds : (all : Bytes) (w : Wal) → Holds all w → Holds all (fsync w).0
fsync-Holds all w h =
    let (f, p, s) = fsync_file w in
    record { lost = h.lost; prefix = rw f h.prefix; exact = λ e. rw (f, p) (h.exact (sym s ∙ e)) }

flush_sticky : (w : Wal) → w.sticky ≡ true → flush w ≡ (w, false)
unfolding flush
flush_sticky w s = ground arith

flush-Holds : (all : Bytes) (w : Wal) → Holds all w → Holds all (flush w).0
flush-Holds all w h = elim (Bool-cases w.sticky) [
  | inl s ↦ rw (flush_sticky w s) h
  | inr s ↦ Leaves-Holds all (flush w) (flush-Leaves all w (s, h.exact s))
]

after_flush-Holds :
    (all : Bytes) (q : Wal × Bool)
    → Holds all q.0
    → Holds all (if q.1 then fsync q.0 else (q.0, false)).0
after_flush-Holds all (w, true) h = fsync-Holds all w h
after_flush-Holds all (w, false) h = h

sync-Holds : (all : Bytes) (w : Wal) → Holds all w → Holds all (sync w).0
unfolding sync
sync-Holds all w h = after_flush-Holds all (flush w) (flush-Holds all w h)

-- The calls that the node makes on its log.
pub data Save : Type 0 where
  put_state : (term : ℕ) (voted_for : Bytes) → Save
  put_entries : List LogEntry → Save
  do_sync : Save

abbrev pub saved : Save → List WalRecord
saved (put_state t v) = state t v ∷ []
saved (put_entries es) = map entry es
saved do_sync = []

abbrev pub save : Save → Wal → Wal
save (put_state t v) w = (save_state t v w).0
save (put_entries es) w = (save_entries es w).0
save do_sync w = (sync w).0

abbrev pub session : List Save → Wal → Wal
session [] w = w
session (s ∷ ss) w = session ss (save s w)

abbrev pub all_saved : List Save → List WalRecord
all_saved [] = []
all_saved (s ∷ ss) = saved s ++ all_saved ss

more : (all p : Bytes) (w : Wal) → w.sticky ≡ true → Holds all w → Holds (all ++ p) w
more all p w s h = record {
  lost = h.lost ++ p;
  prefix = rw (← append_assoc w.file h.lost p) (ap (λ t. t ++ p) h.prefix);
  exact = λ e. absurd (cc);
}

save-Holds :
    (all : Bytes) (s : Save) (w : Wal) → Holds all w → Holds (all ++ frames (saved s)) (save s w)
save-Holds all (put_state t v) w h = elim (Bool-cases w.sticky) [
  | inl s ↦ rw (save_state_sticky t v w s) (more all (frames (state t v ∷ [])) w s h)
  | inr s ↦ Leaves-Holds _ (save_state t v w) (save_state-Leaves all t v w (s, h.exact s))
]
save-Holds all (put_entries es) w h = elim (Bool-cases w.sticky) [
  | inl s ↦ rw (save_entries_sticky es w s) (more all (frames (map entry es)) w s h)
  | inr s ↦ Leaves-Holds _ (save_entries es w) (save_entries-Leaves all es w (s, h.exact s))
]
save-Holds all do_sync w h = rw (append-nil all) (sync-Holds all w h)

session-Holds :
    (rs : List WalRecord) (ss : List Save) (w : Wal)
    → Holds (frames rs) w
    → Holds (frames (rs ++ all_saved ss)) (session ss w)
session-Holds rs [] w h = rw (append-nil rs) h
session-Holds rs (s ∷ ss) w h = rw (← append_assoc rs (saved s) (all_saved ss)) (
    session-Holds (rs ++ saved s) ss (save s w)
      (rw (frames-append rs (saved s)) (save-Holds (frames rs) s w h)))

open-Holds :
    (path : Bytes) (rs : List WalRecord) (calls : List Call)
    → Holds (frames rs) (open_wal path (frames rs) calls)
unfolding open_wal
open-Holds path rs calls = record {
  lost = [];
  prefix = append-nil (frames rs);
  exact = λ _. append-nil (frames rs);
}

-- Crash safety. Over a file of whole records, after any calls of `SaveState`, `SaveEntries` and
-- `Sync`, with any system call failing after any number of bytes and the errors passed over,
-- recovery from what is in the file succeeds and yields the state and the entries of a prefix of
-- all the records, the old and the saved.
pub session_recovers_prefix :
    (path : Bytes) (rs : List WalRecord) (calls : List Call) (ss : List Save)
    → All IsStorable (rs ++ all_saved ss)
    → (k : ℕ) × (k ≤ length (rs ++ all_saved ss))
      × (read_all (session ss (open_wal path (frames rs) calls)).file
          ≡ recovered (replay_all nothing (take k (rs ++ all_saved ss))))
session_recovers_prefix path rs calls ss s =
    let h = session-Holds rs ss _ (open-Holds path rs calls) in
    let w = session ss (open_wal path (frames rs) calls) in
    let e : take (length w.file) (frames (rs ++ all_saved ss)) ≡ w.file =
      rw (← h.prefix) (take-append w.file h.lost) in
    rw (← e) (crash_recovers_prefix (rs ++ all_saved ss) (length w.file) s)

after_flush-file :
    (all : Bytes) (q : Wal × Bool)
    → (q.1 ≡ true → q.0.file ≡ all)
    → (if q.1 then fsync q.0 else (q.0, false)).1 ≡ true
    → (if q.1 then fsync q.0 else (q.0, false)).0.file ≡ all
after_flush-file all (w, true) h e = (fsync_file w).0 ∙ h refl
after_flush-file all (w, false) h e = absurd (cc)

flush-file : (all : Bytes) (w : Wal) → Holds all w → (flush w).1 ≡ true → (flush w).0.file ≡ all
flush-file all w h e = elim (Bool-cases w.sticky) [
  | inl s ↦ absurd (let f : flush w ≡ (w, false) = flush_sticky w s in cc)
  | inr s ↦
      let c = (flush-Leaves all w (s, h.exact s)).clean e in
      sym (append-nil (flush w).0.file) ∙ rw (← pending-flush w e) c.1
]

sync-file : (all : Bytes) (w : Wal) → Holds all w → (sync w).1 ≡ true → (sync w).0.file ≡ all
unfolding sync
sync-file all w h e = after_flush-file all (flush w) (flush-file all w h) e

-- Durability. After any calls as above, a `Sync` that returns no error means that every record
-- saved so far is recovered from the file, the old ones included.
pub synced_is_recovered :
    (path : Bytes) (rs : List WalRecord) (calls : List Call) (ss : List Save)
    → All IsStorable (rs ++ all_saved ss)
    → (sync (session ss (open_wal path (frames rs) calls))).1 ≡ true
    → read_all (sync (session ss (open_wal path (frames rs) calls))).0.file
      ≡ recovered (replay_all nothing (rs ++ all_saved ss))
synced_is_recovered path rs calls ss s e =
    let w = session ss (open_wal path (frames rs) calls) in
    let f =
      sync-file (frames (rs ++ all_saved ss)) w (session-Holds rs ss _ (open-Holds path rs calls))
        e in
    rw (f, ← append-nil (frames (rs ++ all_saved ss)))
      (read_all-frames (rs ++ all_saved ss) [] s next_record-nil)

-- The same for a `Flush` without an error.
pub flushed_is_recovered :
    (path : Bytes) (rs : List WalRecord) (calls : List Call) (ss : List Save)
    → All IsStorable (rs ++ all_saved ss)
    → (flush (session ss (open_wal path (frames rs) calls))).1 ≡ true
    → read_all (flush (session ss (open_wal path (frames rs) calls))).0.file
      ≡ recovered (replay_all nothing (rs ++ all_saved ss))
flushed_is_recovered path rs calls ss s e =
    let w = session ss (open_wal path (frames rs) calls) in
    let f =
      flush-file (frames (rs ++ all_saved ss)) w (session-Holds rs ss _ (open-Holds path rs calls))
        e in
    rw (f, ← append-nil (frames (rs ++ all_saved ss)))
      (read_all-frames (rs ++ all_saved ss) [] s next_record-nil)
