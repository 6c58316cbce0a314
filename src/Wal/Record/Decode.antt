-- ===== src/Wal/Record/Decode.antt =====
-- raft/persistence.go: the `switch` of `ReadAll` on what `SaveState` and `SaveEntries` encode.
use raftly.Common.{◌+◌, ◌^◌, ◌<◌, ◌≡◌, refl, ap, some, List, [], ◌∷◌, ◌++◌, length, take, arith}
use raftly.Wal.Record.{WalRecord, state, entry, encode, Recovered, decode}

-- The values fit the widths of the encoding, and the body fits its length prefix.
abbrev pub IsStorable : WalRecord → Type 0
IsStorable (state term voted_for) = (term < 2 ^ 64) × (length voted_for + 13 < 2 ^ 32)
IsStorable (entry e) =
    (e.index < 2 ^ 64) × (e.term < 2 ^ 64) × (e.entry_type < 256) × (length e.payload + 22 < 2 ^ 32)

-- What a record means: the last state counts, and entries add up.
abbrev pub replay : Recovered → WalRecord → Recovered
replay acc (state term voted_for) = record acc { term = term; voted_for = voted_for }
replay acc (entry e) = record acc { entries = acc.entries ++ e ∷ [] }

pub length-encode : (r : WalRecord) → IsStorable r → length (encode r) < 2 ^ 32
unfolding encode
length-encode (state t v) h = omega arith
length-encode (entry e) h = omega arith

take-length {ℓ} : {A : Type ℓ} (xs : List A) → take (length xs) xs ≡ xs
take-length [] = refl
take-length (x ∷ xs) = ap (λ t. x ∷ t) (take-length xs)

-- Decoding takes back what was encoded, and never panics on it.
pub decode-encode :
    (acc : Recovered) (r : WalRecord) → IsStorable r → decode acc (encode r) ≡ some (replay acc r)
unfolding decode encode
decode-encode acc (state t v) h = ground (arith, take-length v)
decode-encode acc (entry e) h = ground (arith, take-length e.payload)
