-- ===== src/Wal/Read/Torn.antt =====
-- raft/persistence.go: `ReadAll` over what a crash leaves of a frame.
use raftly.Common.{
  ℕ, zero, suc, ◌+◌, ◌^◌, ◌<◌, ◌≡◌, ◌≢◌, refl, none, Bytes, ◌++◌, length, take, drop, length-append,
  length-take, length-drop, take-append, drop-append, arith,
}
use raftly.Wal.Ints.{put_uint32}
use raftly.Wal.Crc.{checksum}
use raftly.Wal.Record.{frame}
use raftly.Wal.Read.{check_crc, read_body, next_record}

check_crc_short : (body after : Bytes) → length after < 4 → check_crc body after ≡ none
unfolding check_crc
check_crc_short body after h = ground arith

read_body_short : (len : ℕ) (rest : Bytes) → length rest < len + 4 → read_body len rest ≡ none
unfolding read_body
read_body_short len rest h =
    ground (arith, length-drop len rest, check_crc_short (take len rest) (drop len rest))

-- A frame that was cut short is no record.
pub next_record-take :
    (n : ℕ) (body : Bytes)
    → length body < 2 ^ 32
    → n < length (frame body)
    → next_record (take n (frame body)) ≡ none
unfolding next_record frame
next_record-take zero body h p = refl
next_record-take (suc zero) body h p = refl
next_record-take (suc (suc zero)) body h p = refl
next_record-take (suc (suc (suc zero))) body h p = refl
next_record-take (suc (suc (suc (suc n)))) body h p = ground (
  arith,
  length-append body (put_uint32 (checksum body)),
  length-take n (body ++ put_uint32 (checksum body)),
  read_body_short (length body) (take n (body ++ put_uint32 (checksum body))),
)

check_crc_corrupt :
    (body rest : Bytes) (crc : ℕ)
    → crc < 2 ^ 32
    → crc ≢ checksum body
    → check_crc body (put_uint32 crc ++ rest) ≡ none
unfolding check_crc
check_crc_corrupt body rest crc h ne = ground arith

-- A whole frame with another checksum is no record, whatever follows it.
pub next_record_corrupt :
    (body rest : Bytes) (crc : ℕ)
    → length body < 2 ^ 32
    → crc < 2 ^ 32
    → crc ≢ checksum body
    → next_record (put_uint32 (length body) ++ (body ++ (put_uint32 crc ++ rest))) ≡ none
unfolding next_record read_body
next_record_corrupt body rest crc h c ne = ground (
  arith,
  length-append body (put_uint32 crc ++ rest),
  take-append body (put_uint32 crc ++ rest),
  drop-append body (put_uint32 crc ++ rest),
  check_crc_corrupt body rest crc c ne,
)
