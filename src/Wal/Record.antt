-- ===== src/Wal/Record.antt =====
-- raft/persistence.go: the bytes of one record, and what recovery makes of them.
pub mod Decode
use raftly.Common.{
  ℕ, ◌+◌, ◌%◌, ◌^◌, List, [], ◌∷◌, ◌++◌, Option, none, some, Bytes, length, get_elem?, drop, ◌==◌,
  if◌then◌else◌, ◌>>=◌,
}
use raftly.Log.{LogEntry}
use raftly.Wal.Ints.{put_uint32, put_uint64, uint32, uint64, slice}
use raftly.Wal.Crc.{checksum}

-- `walRecordType`
abbrev pub wal_record_state : ℕ
wal_record_state = 1

abbrev pub wal_record_entry : ℕ
wal_record_entry = 2

-- What `SaveState` and `SaveEntries` persist, a record each.
pub data WalRecord : Type 0 where
  state : (term : ℕ) (voted_for : Bytes) → WalRecord
  entry : LogEntry → WalRecord

-- The record that `SaveState` and the loop body of `SaveEntries` fill in.
unfoldable pub encode : WalRecord → Bytes
encode (state term voted_for) =
    wal_record_state ∷ (put_uint64 term ++ (put_uint32 (length voted_for) ++ voted_for))
encode (entry e) =
    let tail = (e.entry_type % 256) ∷ (put_uint32 (length e.payload) ++ e.payload) in
    wal_record_entry ∷ (put_uint64 e.index ++ (put_uint64 e.term ++ tail))

-- The three pieces that `writeRecord` writes.
unfoldable pub frame : Bytes → Bytes
frame body = put_uint32 (length body) ++ (body ++ put_uint32 (checksum body))

-- What `ReadAll` returns.
pub record Recovered : Type 0 where
  pub term : ℕ
  pub voted_for : Bytes
  pub entries : List LogEntry

abbrev pub nothing : Recovered
nothing = record { term = 0; voted_for = []; entries = [] }

decode_state : Recovered → Bytes → Option Recovered
decode_state acc body = do
  term ← uint64 (drop 1 body)
  len ← uint32 (drop 9 body)
  voted_for ← slice body 13 ((13 + len) % 2 ^ 32)
  some (record { term = term; voted_for = voted_for; entries = acc.entries })

abbrev decoded_entry : ℕ → ℕ → ℕ → Bytes → LogEntry
decoded_entry index term kind payload = record {
  index = index;
  term = term;
  entry_type = kind;
  payload = payload;
}

decode_entry : Recovered → Bytes → Option Recovered
decode_entry acc body = do
  index ← uint64 (drop 1 body)
  term ← uint64 (drop 9 body)
  kind ← get_elem? body 17
  len ← uint32 (drop 18 body)
  payload ← slice body 22 ((22 + len) % 2 ^ 32)
  some (record acc { entries = acc.entries ++ decoded_entry index term kind payload ∷ [] })

-- The `switch` on the type byte. `none` is a panic: an index or a slice out of range. A record of
-- another type is passed over.
unfoldable pub decode : Recovered → Bytes → Option Recovered
unfolding decode_state decode_entry
decode acc [] = none
decode acc (t ∷ body) =
    if t == wal_record_state
    then decode_state acc (t ∷ body)
    else if t == wal_record_entry
    then decode_entry acc (t ∷ body)
    else some acc
