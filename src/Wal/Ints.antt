-- ===== src/Wal/Ints.antt =====
-- encoding/binary's BigEndian and slice expressions, as raft/persistence.go uses them.
use raftly.Common.{
  ℕ, ◌+◌, ◌-◌, ◌*◌, ◌/◌, ◌%◌, ◌^◌, ◌<◌, ◌≡◌, [], ◌∷◌, ◌++◌, Option, none, some, Bytes, length, take,
  drop, ltb, ◌||◌, if◌then◌else◌, arith,
}

-- `PutUint32` and `PutUint64`, with the conversion to the unsigned type.
abbrev pub put_uint32 : ℕ → Bytes
put_uint32 v = (v / 2 ^ 24 % 256) ∷ (v / 2 ^ 16 % 256) ∷ (v / 2 ^ 8 % 256) ∷ (v % 256) ∷ []

abbrev pub put_uint64 : ℕ → Bytes
put_uint64 v = put_uint32 (v / 2 ^ 32) ++ put_uint32 v

-- `Uint32` and `Uint64`, which read the front of a slice; `none` is the panic on a short one.
abbrev pub uint32 : Bytes → Option ℕ
uint32 (a ∷ b ∷ c ∷ d ∷ _) = some (a * 2 ^ 24 + b * 2 ^ 16 + c * 2 ^ 8 + d)
uint32 _ = none

abbrev pub uint64 : Bytes → Option ℕ
uint64 (a ∷ b ∷ c ∷ d ∷ e ∷ f ∷ g ∷ h ∷ _) =
    some
      (a * 2 ^ 56 + b * 2 ^ 48 + c * 2 ^ 40 + d * 2 ^ 32 + e * 2 ^ 24 + f * 2 ^ 16 + g * 2 ^ 8 + h)
uint64 _ = none

-- `s[from:to]` of a slice whose capacity is its length; `none` is the panic.
abbrev pub slice : Bytes → ℕ → ℕ → Option Bytes
slice s from to =
    if ltb to from || ltb (length s) to then none else some (take (to - from) (drop from s))

pub uint32-put_uint32 : (v : ℕ) (rest : Bytes) → v < 2 ^ 32 → uint32 (put_uint32 v ++ rest) ≡ some v
uint32-put_uint32 v rest h = ground arith

pub uint64-put_uint64 : (v : ℕ) (rest : Bytes) → v < 2 ^ 64 → uint64 (put_uint64 v ++ rest) ≡ some v
uint64-put_uint64 v rest h = ground arith
