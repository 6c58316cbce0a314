-- ===== src/Grpc/Convert.antt =====
-- transport/grpc.go: the conversions of entries, there and back.
use mathlib.Core.Path.{ap₂}
use raftly.Common.{
  ℕ, ◌-◌, ◌^◌, ◌≤◌, ◌<◌, ◌≡◌, ◌⊎◌, ◌↔◌, refl, ap, List, [], ◌∷◌, inl, inr, All, arith,
}
use raftly.Log.{LogEntry}
use raftly.Message.{AppendEntriesRequest}
use raftly.Grpc.{
  to_int32, of_int32, to_pb_entry, of_pb_entry, raft_to_pb_entries, pb_to_raft_entries,
  to_pb_request, of_pb_request,
}

-- A number of 64 bits that an `int32` holds: a small one, or a negative one that is not too far
-- below 0.
abbrev pub IsInt32 : ℕ → Type 0
IsInt32 x = (x < 2 ^ 31) ⊎ ((2 ^ 64 - 2 ^ 31 ≤ x) × (x < 2 ^ 64))

of_int32-to_int32 : (x : ℕ) → IsInt32 x → of_int32 (to_int32 x) ≡ x
of_int32-to_int32 x (inl h) = ground arith
of_int32-to_int32 x (inr h) = ground arith

IsInt32-of_int32 : (x : ℕ) → of_int32 (to_int32 x) ≡ x → IsInt32 x
IsInt32-of_int32 x p = ground arith

entry_round_trip : (e : LogEntry) → IsInt32 e.entry_type → of_pb_entry (to_pb_entry e) ≡ e
entry_round_trip e h = ap (λ x. record e { entry_type = x }) (of_int32-to_int32 e.entry_type h)

pub pb_entries_round_trip :
    (es : List LogEntry)
    → (pb_to_raft_entries (raft_to_pb_entries es) ≡ es)
      ↔ All (λ (e : LogEntry). IsInt32 e.entry_type) es
unfolding raft_to_pb_entries pb_to_raft_entries
pb_entries_round_trip [] = (λ _. tt, λ _. refl)
pb_entries_round_trip (e ∷ es) = (
  λ p.
      let types : of_int32 (to_int32 e.entry_type) ≡ e.entry_type = (let q = p in ground arith) in
      let rest : pb_to_raft_entries (raft_to_pb_entries es) ≡ es = (let q = p in ground arith) in
      (IsInt32-of_int32 e.entry_type types, (pb_entries_round_trip es).0 rest),
  λ h. ap₂ (λ x xs. x ∷ xs) (entry_round_trip e h.0) ((pb_entries_round_trip es).1 h.1),
)

pub pb_request_round_trip :
    (req : AppendEntriesRequest)
    → All (λ (e : LogEntry). IsInt32 e.entry_type) req.entries
    → of_pb_request (to_pb_request req) ≡ req
pb_request_round_trip req h =
    ap (λ es. record req { entries = es }) ((pb_entries_round_trip req.entries).1 h)
