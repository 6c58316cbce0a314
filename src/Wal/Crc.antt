-- ===== src/Wal/Crc.antt =====
-- hash/crc32's `ChecksumIEEE`: the reflected polynomial 0xedb88320, a bit at a time.
use Prim.Native.Nat.{bit_xor}
use mathlib.Core.List.{foldl}
use raftly.Common.{
  ℕ, zero, suc, ◌/◌, ◌%◌, ◌^◌, ◌<◌, ◌≡◌, refl, [], ◌∷◌, Bytes, ◌==◌, if◌then◌else◌, arith,
}

abbrev u32 : ℕ → ℕ
u32 n = n % 2 ^ 32

shift_bit : ℕ → ℕ
shift_bit c = if c % 2 == 1 then bit_xor (c / 2) 0xedb8_8320 else c / 2

shift_bits : ℕ → ℕ → ℕ
unfolding shift_bit
shift_bits zero c = c
shift_bits (suc n) c = shift_bits n (shift_bit c)

update : ℕ → ℕ → ℕ
unfolding shift_bits
update c b = shift_bits 8 (bit_xor c b)

unfoldable pub checksum : Bytes → ℕ
unfolding update
checksum bytes = u32 (bit_xor (foldl update 0xffff_ffff bytes) 0xffff_ffff)

pub checksum-lt : (bytes : Bytes) → checksum bytes < 2 ^ 32
unfolding checksum
checksum-lt bytes = omega arith

-- The check value of the algorithm: the checksum of "123456789".
checksum_check : checksum (49 ∷ 50 ∷ 51 ∷ 52 ∷ 53 ∷ 54 ∷ 55 ∷ 56 ∷ 57 ∷ []) ≡ 0xcbf4_3926
unfolding checksum
checksum_check = refl

pub checksum-nil : checksum [] ≡ 0
unfolding checksum
checksum-nil = refl
