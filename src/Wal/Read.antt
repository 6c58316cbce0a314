-- ===== src/Wal/Read.antt =====
-- raft/persistence.go: `ReadAll`, as a function of the bytes of the file. A read fails only at the
-- end of the file, so `err` stays nil.
pub mod Frame
pub mod Torn
use raftly.Common.{
  ℕ, zero, suc, Option, none, some, Bytes, length, take, drop, ltb, ◌==◌, if◌then◌else◌,
}
use raftly.Wal.Ints.{uint32}
use raftly.Wal.Crc.{checksum}
use raftly.Wal.Record.{Recovered, nothing, decode}

-- After the body: a short checksum or one that does not match breaks off.
check_crc : Bytes → Bytes → Option (Bytes × Bytes)
check_crc body after = elim (uint32 after) [
  | none ↦ none
  | some expected ↦ if expected == checksum body then some (body, drop 4 after) else none
]

-- After the length: a short body breaks off.
read_body : ℕ → Bytes → Option (Bytes × Bytes)
unfolding check_crc
read_body len rest =
    if ltb (length rest) len then none else check_crc (take len rest) (drop len rest)

-- The body of the next record and the bytes after it. `none` is each of the four `break`s, the
-- first one for a short length.
unfoldable pub next_record : Bytes → Option (Bytes × Bytes)
unfolding read_body
next_record bytes = elim (uint32 bytes) [ none ↦ none | some len ↦ read_body len (drop 4 bytes) ]

-- `stuck` is no value of the program: it says that the fuel ran out.
pub data Outcome : Type 0 where
  recovered : Recovered → Outcome
  panicked : Outcome
  stuck : Outcome

-- The `for` loop, from the results read so far.
unfoldable pub read_loop : ℕ → Recovered → Bytes → Outcome
read_loop zero acc bytes = stuck
read_loop (suc fuel) acc bytes = elim (next_record bytes) [
  | none ↦ recovered acc
  | some (body, after) ↦ elim (decode acc body) [
    | none ↦ panicked
    | some acc' ↦ read_loop fuel acc' after
  ]
]

-- A record takes eight bytes at least.
unfoldable pub read_all : Bytes → Outcome
read_all bytes = read_loop (suc (length bytes)) nothing bytes
