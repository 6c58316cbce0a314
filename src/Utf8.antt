-- ===== src/Utf8.antt =====
-- The strings that are UTF-8: JSON and protocol buffers carry only those unchanged.
use raftly.Common.{
  ℕ, zero, suc, ◌≡◌, [], ◌∷◌, Bool, true, false, ◌&&◌, Bytes, ltb, leb, ◌==◌, if◌then◌else◌,
}

-- How many bytes must follow a first byte, and the range of the first of them.
abbrev followers : ℕ → ℕ × ℕ × ℕ
followers b =
    if leb b 223
    then (1, 128, 191)
    else if b == 224
    then (2, 160, 191)
    else if b == 237
    then (2, 128, 159)
    else if leb b 239
    then (2, 128, 191)
    else if b == 240
    then (3, 144, 191)
    else if b == 244
    then (3, 128, 143)
    else (3, 128, 191)

-- UTF-8 of which so many bytes of the first character are still to come, the next in a range.
abbrev utf8_rest : ℕ → ℕ → ℕ → Bytes → Bool
utf8_rest zero lo hi [] = true
utf8_rest zero lo hi (b ∷ bs) =
    let (count, next_lo, next_hi) = followers b in
    let ascii = utf8_rest 0 0 0 bs in
    let longer = utf8_rest count next_lo next_hi bs in
    if ltb b 128 then ascii else leb 194 b && leb b 244 && longer
utf8_rest (suc count) lo hi [] = false
utf8_rest (suc count) lo hi (b ∷ bs) =
    let rest = utf8_rest count 128 191 bs in leb lo b && leb b hi && rest

abbrev pub is_utf8 : Bytes → Bool
is_utf8 s = utf8_rest 0 0 0 s

abbrev pub IsUtf8 : Bytes → Type 0
IsUtf8 s = is_utf8 s ≡ true
