-- ===== src/Wal/Durable.antt =====
-- raft/persistence.go: what of the records that were saved a crash or a failing disk leaves in the
-- file, for every behaviour of the system calls.
pub mod Session
mod Tests
use raftly.Common.{
  ℕ, ◌≤◌, ◌≡◌, ◌∙◌, refl, sym, ap, List, [], ◌∷◌, ◌++◌, map, Option, none, some, Bool, true, false,
  Bytes, All, length, take, append_assoc, append-nil, arith, Option-cases, Bool-cases, inl, inr,
  if◌then◌else◌, length-append,
}
use raftly.Log.{LogEntry}
use raftly.Wal.Ints.{put_uint32}
use raftly.Wal.Crc.{checksum}
use raftly.Wal.Record.{WalRecord, state, entry, encode, frame, nothing}
use raftly.Wal.Record.Decode.{IsStorable}
use raftly.Wal.Read.{recovered, read_all}
use raftly.Wal.Recovery.{frames, frames-append, replay_all, read_all-frames}
use raftly.Wal.Recovery.Damage.{crash_recovers_prefix}
use raftly.Wal.File.{Wal, flush, buffered_write, sys_call}
use raftly.Wal.File.Holds.{Clean, Leaves, buffered_write-Leaves, flush-Leaves, pending-flush}
use raftly.Wal.Ops.{Method, ◌>>◌, write_record, save_state, save_entries, sync, fsync, open_wal}

after-Leaves :
    (all p : Bytes) (q : Wal × Bool) (k : Method)
    → Leaves all q
    → ((w : Wal) → Clean all w → Leaves (all ++ p) (k w))
    → Leaves (all ++ p) (if q.1 then k q.0 else (q.0, false))
after-Leaves all p (w, true) k h g = g w (h.clean refl)
after-Leaves all p (w, false) k h g = record {
  lost = h.lost ++ p;
  prefix = rw (← append_assoc w.file h.lost p) (ap (λ t. t ++ p) h.prefix);
  clean = λ e. cc;
  dead = h.dead;
}

-- One method after another, each adding its bytes.
>>-Leaves :
    (all p r : Bytes) (m k : Method) (w : Wal)
    → Leaves (all ++ p) (m w)
    → ((w' : Wal) → Clean (all ++ p) w' → Leaves ((all ++ p) ++ r) (k w'))
    → Leaves (all ++ (p ++ r)) ((m >> k) w)
>>-Leaves all p r m k w h g = rw (← append_assoc all p r) (after-Leaves (all ++ p) r (m w) k h g)

write_record-Leaves :
    (all body : Bytes) (w : Wal) → Clean all w → Leaves (all ++ frame body) (write_record body w)
unfolding write_record frame
write_record-Leaves all body w c =
    >>-Leaves all len (body ++ crc) (λ v. buffered_write v len) _ w
      (buffered_write-Leaves all len w c)
      (λ w1 c1.
        >>-Leaves (all ++ len) body crc (λ v. buffered_write v body) (λ v. buffered_write v crc) w1
          (buffered_write-Leaves (all ++ len) body w1 c1)
          (buffered_write-Leaves ((all ++ len) ++ body) crc))
  where
    len : Bytes
    len = put_uint32 (length body)

    crc : Bytes
    crc = put_uint32 (checksum body)

-- `SaveState` adds one record.
pub save_state-Leaves :
    (all : Bytes) (term : ℕ) (voted_for : Bytes) (w : Wal)
    → Clean all w
    → Leaves (all ++ frames (state term voted_for ∷ [])) (save_state term voted_for w)
unfolding save_state
save_state-Leaves all term voted_for w c =
    rw (append-nil (frame (encode (state term voted_for))))
      (write_record-Leaves all (encode (state term voted_for)) w c)

-- `SaveEntries` adds a record for each entry.
pub save_entries-Leaves :
    (all : Bytes) (es : List LogEntry) (w : Wal)
    → Clean all w
    → Leaves (all ++ frames (map entry es)) (save_entries es w)
unfolding save_entries
save_entries-Leaves all [] w c = record {
  lost = w.pending;
  prefix = rw (append-nil all) (c.1);
  clean = λ _. rw (append-nil all) c;
  dead = λ e. cc;
}
save_entries-Leaves all (e ∷ es) w c =
    >>-Leaves all (frame (encode (entry e))) (frames (map entry es))
      (write_record (encode (entry e))) (save_entries es) w
      (write_record-Leaves all (encode (entry e)) w c)
      (save_entries-Leaves (all ++ frame (encode (entry e))) es)

-- What a writer holds between two calls, whatever failed before.
pub record Holds (all : Bytes) (w : Wal) : Type 0 where
  pub lost : Bytes
  pub prefix : w.file ++ lost ≡ all
  pub exact : w.sticky ≡ false → w.file ++ w.pending ≡ all

pub Leaves-Holds : (all : Bytes) (q : Wal × Bool) → Leaves all q → Holds all q.0
Leaves-Holds all (w, true) h = record {
  lost = h.lost;
  prefix = h.prefix;
  exact = λ _. (h.clean refl).1;
}
Leaves-Holds all (w, false) h = record {
  lost = h.lost;
  prefix = h.prefix;
  exact = λ e. absurd (let d : w.sticky ≡ true = h.dead refl in cc);
}
