-- ===== src/Wal/Read/Frame.antt =====
-- raft/persistence.go: `ReadAll` over the frames that `writeRecord` makes.
use raftly.Common.{
  ◌+◌, ◌≤◌, ◌^◌, ◌<◌, ◌≡◌, ℕ, inl, inr, Option-cases, take, drop, length-drop, some, Bytes, ◌++◌,
  length, length-append, take-append, drop-append, append_assoc, arith,
}
use raftly.Wal.Ints.{uint32, put_uint32}
use raftly.Wal.Crc.{checksum, checksum-lt}
use raftly.Wal.Record.{frame}
use raftly.Wal.Read.{check_crc, read_body, next_record}

check_crc-frame :
    (body rest : Bytes) → check_crc body (put_uint32 (checksum body) ++ rest) ≡ some (body, rest)
unfolding check_crc
check_crc-frame body rest = ground (arith, checksum-lt body)

read_body-frame :
    (body rest : Bytes)
    → read_body (length body) (body ++ (put_uint32 (checksum body) ++ rest)) ≡ some (body, rest)
unfolding read_body
read_body-frame body rest = ground (
  arith,
  length-append body (put_uint32 (checksum body) ++ rest),
  take-append body (put_uint32 (checksum body) ++ rest),
  drop-append body (put_uint32 (checksum body) ++ rest),
  check_crc-frame body rest,
)

frame_append :
    (body rest : Bytes)
    → frame body ++ rest
      ≡ put_uint32 (length body) ++ (body ++ (put_uint32 (checksum body) ++ rest))
unfolding frame
frame_append body rest = simp append_assoc

-- A frame is read back whole, whatever follows it.
pub next_record-frame :
    (body rest : Bytes)
    → length body < 2 ^ 32
    → next_record (frame body ++ rest) ≡ some (body, rest)
unfolding next_record
next_record-frame body rest h =
    rw (frame_append body rest) (ground (arith, read_body-frame body rest))

check_crc-length :
    (body after : Bytes) {body' rest : Bytes}
    → check_crc body after ≡ some (body', rest)
    → length rest + 4 ≤ length after
unfolding check_crc
check_crc-length body after e = ground arith

read_body-length :
    (len : ℕ) (rest : Bytes) {body after : Bytes}
    → read_body len rest ≡ some (body, after)
    → length after + 4 ≤ length rest
unfolding read_body
read_body-length len rest e =
    ground (arith, length-drop len rest, check_crc-length (take len rest) (drop len rest))

-- A record takes eight bytes at least.
pub next_record-length :
    (bytes : Bytes) {body after : Bytes}
    → next_record bytes ≡ some (body, after)
    → length after + 8 ≤ length bytes
unfolding next_record
next_record-length bytes {body} {after} e = elim (Option-cases (uint32 bytes)) [
  | inl n ↦ ground arith
  | inr (len, n) ↦ ground (
    arith,
    length-drop 4 bytes,
    read_body-length len (drop 4 bytes) {body = body} {after = after},
  )
]
