-- ===== src/Wal/Recovery/Tests.antt =====
-- raft/persistence.go: recovery of small files, by evaluation and as instances of its theorems.
use raftly.Common.{◌≡◌, ◌≢◌, refl, List, [], ◌∷◌, ◌++◌, Bytes, take, arith}
use raftly.Log.{LogEntry}
use raftly.Wal.Record.{WalRecord, state, entry, encode, frame, nothing, decode}
use raftly.Wal.Crc.{checksum}
use raftly.Wal.Read.{recovered, panicked, stuck, next_record, read_loop, read_all}
use raftly.Wal.Recovery.{frames, replay_all, read_all-ne-stuck}
use raftly.Wal.Recovery.Damage.{
  corrupt_frame, eight_zeros, corrupt_record_hides_rest, zero_tail_panics,
}

abbrev set_x : LogEntry
set_x = record { index = 1; term = 3; entry_type = 0; payload = 120 ∷ 61 ∷ 53 ∷ [] }

abbrev vote_then_entry : List WalRecord
vote_then_entry = state 3 (110 ∷ 49 ∷ []) ∷ entry set_x ∷ []

whole_file :
    read_all (frames vote_then_entry)
    ≡ recovered (record { term = 3; voted_for = 110 ∷ 49 ∷ []; entries = set_x ∷ [] })
unfolding read_all read_loop next_record decode frame encode checksum
whole_file = refl

read_all-ne-stuck_example : read_all (take 40 (frames vote_then_entry)) ≢ stuck
read_all-ne-stuck_example = read_all-ne-stuck (take 40 (frames vote_then_entry))

abbrev one_byte : Bytes
one_byte = 9 ∷ []

checksum-one_byte : 0 ≢ checksum one_byte
unfolding checksum
checksum-one_byte e = omega arith

corrupt_record_hides_rest_example :
    read_all (frames vote_then_entry ++ (corrupt_frame one_byte 0 ++ frames vote_then_entry))
    ≡ recovered (replay_all nothing vote_then_entry)
corrupt_record_hides_rest_example =
    corrupt_record_hides_rest vote_then_entry vote_then_entry one_byte 0 (omega arith) (omega arith)
      (omega arith) checksum-one_byte

zero_tail_panics_example : read_all (frames vote_then_entry ++ (eight_zeros ++ [])) ≡ panicked
zero_tail_panics_example = zero_tail_panics vote_then_entry [] (omega arith)
