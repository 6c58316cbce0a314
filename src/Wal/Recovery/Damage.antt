-- ===== src/Wal/Recovery/Damage.antt =====
-- raft/persistence.go: `ReadAll` on a file that a crash cut short, whose last record is corrupt, or
-- that has zeros at its end.
use raftly.Common.{
  ℕ, zero, suc, ◌-◌, ◌^◌, ◌≤◌, ◌<◌, ◌≡◌, ◌≢◌, ◌∙◌, refl, sym, ap, none, Bytes, List, [], ◌∷◌, ◌++◌,
  All, length, take, append_assoc, take_of_le-append, arith,
}
use native.Mathlib.Decide.{dec_lt}
use raftly.Wal.Ints.{put_uint32}
use raftly.Wal.Crc.{checksum, checksum-nil}
use raftly.Wal.Record.{WalRecord, encode, frame, Recovered, nothing, decode}
use raftly.Wal.Record.Decode.{IsStorable, length-encode}
use raftly.Wal.Read.{next_record, recovered, panicked, read_loop, read_all}
use raftly.Wal.Read.Torn.{next_record-take, next_record_corrupt}
use raftly.Wal.Recovery.{frames, replay_all, read_all-frames, read_all-append}

take-append_of_ge {ℓ} :
    {A : Type ℓ} (n : ℕ) (xs ys : List A)
    → length xs ≤ n
    → take n (xs ++ ys) ≡ xs ++ take (n - length xs) ys
take-append_of_ge n [] ys h = let e : n - 0 ≡ n = omega arith in rw e
take-append_of_ge zero (x ∷ xs) ys h = absurd (omega arith)
take-append_of_ge (suc n) (x ∷ xs) ys h =
    let e : suc n - suc (length xs) ≡ n - length xs = omega arith in
    rw e (ap (λ t. x ∷ t) (take-append_of_ge n xs ys (omega arith)))

-- A prefix of some records' bytes is some of the records, and then bytes that are no record.
record Cut (rs : List WalRecord) (bytes : Bytes) : Type 0 where
  kept : ℕ
  within : kept ≤ length rs
  tail : Bytes
  unread : next_record tail ≡ none
  whole : bytes ≡ frames (take kept rs) ++ tail

take-nil {ℓ} : {A : Type ℓ} (n : ℕ) → take {A = A} n [] ≡ []
take-nil zero = refl
take-nil (suc n) = refl

pub next_record-nil : next_record [] ≡ none
unfolding next_record
next_record-nil = refl

cut : (n : ℕ) (rs : List WalRecord) → All IsStorable rs → Cut rs (take n (frames rs))
cut n [] s = record {
  kept = 0;
  within = omega arith;
  tail = [];
  unread = next_record-nil;
  whole = take-nil n;
}
cut n (r ∷ rs) s = elim (dec_lt n (length (frame (encode r)))) [
  | yes h ↦ record {
    kept = 0;
    within = omega arith;
    tail = take n (frame (encode r));
    unread = next_record-take n (encode r) (length-encode r s.0) h;
    whole = take_of_le-append n (frame (encode r)) (frames rs) (omega arith);
  }
  | no h ↦
      let c = cut (n - length (frame (encode r))) rs s.1 in
      record {
        kept = suc c.kept;
        within = omega (arith, c.within);
        tail = c.tail;
        unread = c.unread;
        whole =
            take-append_of_ge n (frame (encode r)) (frames rs) (omega arith)
            ∙ rw c.whole (sym (append_assoc (frame (encode r)) (frames (take c.kept rs)) c.tail));
      }
]

All-take : (n : ℕ) (rs : List WalRecord) → All IsStorable rs → All IsStorable (take n rs)
All-take zero rs s = tt
All-take (suc n) [] s = tt
All-take (suc n) (r ∷ rs) s = (s.0, All-take n rs s.1)

-- Whatever byte a crash cuts the file at, recovery succeeds and yields the state and the entries
-- of some of the records from the front: never a panic, never a part of a record.
pub crash_recovers_prefix :
    (rs : List WalRecord) (n : ℕ)
    → All IsStorable rs
    → (k : ℕ) × (k ≤ length rs)
      × (read_all (take n (frames rs)) ≡ recovered (replay_all nothing (take k rs)))
crash_recovers_prefix rs n s =
    let c = cut n rs s in
    (
      c.kept,
      c.within,
      rw c.whole (read_all-frames (take c.kept rs) c.tail (All-take c.kept rs s) c.unread),
    )

-- The bytes of a record whose checksum does not match.
abbrev pub corrupt_frame : Bytes → ℕ → Bytes
corrupt_frame body crc = put_uint32 (length body) ++ (body ++ put_uint32 crc)

-- A record with a wrong checksum ends recovery: the records before it are read, and nothing of
-- what was written after it, though that be whole records.
pub corrupt_record_hides_rest :
    (rs later : List WalRecord) (body : Bytes) (crc : ℕ)
    → All IsStorable rs
    → length body < 2 ^ 32
    → crc < 2 ^ 32
    → crc ≢ checksum body
    → read_all (frames rs ++ (corrupt_frame body crc ++ frames later))
      ≡ recovered (replay_all nothing rs)
corrupt_record_hides_rest rs later body crc s h c ne =
    read_all-frames rs (corrupt_frame body crc ++ frames later) s (
      rw (append_assoc body (put_uint32 crc) (frames later))
        (next_record_corrupt body (frames later) crc h c ne))

abbrev pub eight_zeros : Bytes
eight_zeros = 0 ∷ 0 ∷ 0 ∷ 0 ∷ 0 ∷ 0 ∷ 0 ∷ 0 ∷ []

read_loop_zeros :
    (f : ℕ) (acc : Recovered) (rest : Bytes)
    → read_loop (suc f) acc (eight_zeros ++ rest) ≡ panicked
unfolding read_loop next_record decode
read_loop_zeros f acc rest = ground (arith, checksum-nil)

-- Eight zero bytes are an empty record with a right checksum: recovery panics at its type byte.
pub zero_tail_panics :
    (rs : List WalRecord) (rest : Bytes)
    → All IsStorable rs
    → read_all (frames rs ++ (eight_zeros ++ rest)) ≡ panicked
zero_tail_panics rs rest s =
    let (f, p) = read_all-append rs (eight_zeros ++ rest) s in
    p ∙ read_loop_zeros f (replay_all nothing rs) rest
