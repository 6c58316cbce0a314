-- ===== src/Wal/Recovery.antt =====
-- raft/persistence.go: what `ReadAll` recovers from a file that `SaveState` and `SaveEntries` wrote,
-- whole, cut short by a crash, corrupted, or written on after either.
pub mod Damage
mod Tests
use mathlib.Core.List.{foldl}
use raftly.Common.{
  ℕ, zero, suc, ◌+◌, ◌^◌, ◌≤◌, ◌<◌, ◌≡◌, ◌≢◌, refl, ap, ◌-◌, ◌∙◌, Option, none, some, Bytes, List,
  [], ◌∷◌, ◌++◌, All, length, take, drop, length-append, append_assoc, append-nil, Option-cases,
  inl, inr, arith,
}
use raftly.Wal.Ints.{put_uint32}
use raftly.Wal.Crc.{checksum}
use raftly.Wal.Record.{WalRecord, encode, frame, Recovered, nothing, decode}
use raftly.Wal.Record.Decode.{IsStorable, replay, length-encode, decode-encode}
use raftly.Wal.Read.{next_record, Outcome, recovered, stuck, read_loop, read_all}
use raftly.Wal.Read.Frame.{next_record-frame, next_record-length}

-- The bytes of a sequence of records.
abbrev pub frames : List WalRecord → Bytes
frames [] = []
frames (r ∷ rs) = frame (encode r) ++ frames rs

abbrev pub replay_all : Recovered → List WalRecord → Recovered
replay_all acc [] = acc
replay_all acc (r ∷ rs) = replay_all (replay acc r) rs

pub frames-append : (rs ss : List WalRecord) → frames (rs ++ ss) ≡ frames rs ++ frames ss
frames-append [] ss = refl
frames-append (r ∷ rs) ss = simp (frames-append rs ss, append_assoc)

length-frame : (body : Bytes) → 8 ≤ length (frame body)
unfolding frame
length-frame body = omega (arith, length-append body (put_uint32 (checksum body)))

length-frames : (rs : List WalRecord) → length rs ≤ length (frames rs)
length-frames [] = omega arith
length-frames (r ∷ rs) =
    omega (
      arith,
      length-frame (encode r),
      length-append (frame (encode r)) (frames rs),
      length-frames rs,
    )

read_loop_end :
    (fuel : ℕ) (acc : Recovered) (rest : Bytes)
    → next_record rest ≡ none
    → read_loop (suc fuel) acc rest ≡ recovered acc
unfolding read_loop
read_loop_end fuel acc rest e = ground arith

read_loop_record :
    (fuel : ℕ) (acc : Recovered) (r : WalRecord) (rest : Bytes)
    → IsStorable r
    → read_loop (suc fuel) acc (frame (encode r) ++ rest) ≡ read_loop fuel (replay acc r) rest
read_loop_record fuel acc r rest s =
    unfold read_loop in
    rw (next_record-frame (encode r) rest (length-encode r s), decode-encode acc r s, read_loop)

-- The loop reads every record in front, a round each.
read_loop-frames :
    (j fuel : ℕ) (acc : Recovered) (rs : List WalRecord) (rest : Bytes)
    → j ≡ length rs + fuel
    → All IsStorable rs
    → read_loop j acc (frames rs ++ rest) ≡ read_loop fuel (replay_all acc rs) rest
read_loop-frames j fuel acc [] rest h s = let e : j ≡ fuel = omega arith in rw e
read_loop-frames zero fuel acc (r ∷ rs) rest h s = absurd (omega arith)
read_loop-frames (suc j) fuel acc (r ∷ rs) rest h s =
    rw
      (
        append_assoc (frame (encode r)) (frames rs) rest,
        read_loop_record j acc r (frames rs ++ rest) s.0,
      )
      (read_loop-frames j fuel (replay acc r) rs rest (omega arith) s.1)

pub read_all-append :
    (rs : List WalRecord) (rest : Bytes)
    → All IsStorable rs
    → (f : ℕ) × (read_all (frames rs ++ rest) ≡ read_loop (suc f) (replay_all nothing rs) rest)
unfolding read_all
read_all-append rs rest s = (
  length (frames rs ++ rest) - length rs,
  read_loop-frames (suc (length (frames rs ++ rest))) (suc (length (frames rs ++ rest) - length rs))
      nothing rs rest (omega (arith, length-frames rs, length-append (frames rs) rest)) s,
)

-- Recovery from a file that holds records `rs`, and after them bytes that are no record, yields
-- exactly the last state and all entries of `rs`.
pub read_all-frames :
    (rs : List WalRecord) (rest : Bytes)
    → All IsStorable rs
    → next_record rest ≡ none
    → read_all (frames rs ++ rest) ≡ recovered (replay_all nothing rs)
read_all-frames rs rest s e =
    let (f, p) = read_all-append rs rest s in p ∙ read_loop_end f (replay_all nothing rs) rest e

read_loop-ne-stuck :
    (fuel : ℕ) (acc : Recovered) (bytes : Bytes)
    → length bytes < fuel
    → read_loop fuel acc bytes ≢ stuck
unfolding read_loop
read_loop-ne-stuck zero acc bytes h = absurd (omega arith)
read_loop-ne-stuck (suc fuel) acc bytes h = elim (Option-cases (next_record bytes)) [
  | inl e ↦ ground arith
  | inr ((body, after), e) ↦ elim (Option-cases (decode acc body)) [
    | inl d ↦ ground arith
    | inr (acc', d) ↦ ground (arith, next_record-length bytes e, read_loop-ne-stuck fuel acc' after)
  ]
]

-- The loop ends on every file: one round more than the file has bytes is enough.
pub read_all-ne-stuck : (bytes : Bytes) → read_all bytes ≢ stuck
unfolding read_all
read_all-ne-stuck bytes = read_loop-ne-stuck (suc (length bytes)) nothing bytes (omega arith)
