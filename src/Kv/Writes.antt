-- ===== src/Kv/Writes.antt =====
-- server/api.go: the branches of PUT and DELETE.
use raftly.Common.{
  ℕ, ◌≡◌, ◌⊎◌, refl, sym, ◌∙◌, ap, [], some, Bytes, str_eq, str_eq_iff, Bool-cases, Option-cases,
  inl, inr, arith,
}
use raftly.Node.{Node, is_leader}
use raftly.Wal.Ops.{save_entry, sync}
use raftly.Proposals.{
  ProposeResult, not_leader, wal_write_failed, wal_sync_failed, waiting, proposed, propose,
}
use raftly.Kv.{
  Command, Codec, put_op, KvStore, Upstream, Request, Handling, answered, awaiting, key_of,
  proposing, handle_put, handle_delete,
}
use raftly.Kv.Handlers.{IsServed}

propose-log :
    (payload : Bytes) (caller : ℕ) (n : Node)
    → ((index : ℕ) × (term : ℕ) × ((propose payload caller n).1 ≡ waiting index term))
      ⊎ ((propose payload caller n).0.log ≡ n.log)
unfolding propose
propose-log payload caller n = elim (Bool-cases (is_leader n.state)) [
  | inr off ↦ inr (rw (propose, off) refl)
  | inl on ↦ elim (Bool-cases (save_entry (proposed payload n) n.wal).1) [
    | inr unwritten ↦ inr (rw (propose, on, unwritten) refl)
    | inl written ↦ elim (Bool-cases (sync (save_entry (proposed payload n) n.wal).0).1) [
      | inr unsynced ↦ inr (rw (propose, on, written, unsynced) refl)
      | inl synced ↦
          inl ((proposed payload n).index, n.current_term, rw (propose, on, written, synced) refl)
    ]
  ]
]

-- An answer instead of a wait: then the log of the node is as it was.
abbrev pub IsSpared : Node → Node × Handling → Type 0
IsSpared n (m, answered r) = m.log ≡ n.log
IsSpared n (m, awaiting index term) = Unit {0}

proposing-IsSpared :
    (up : Upstream) (kv : KvStore) (req : Request) (n m : Node) (r : ProposeResult)
    → ((index : ℕ) × (term : ℕ) × (r ≡ waiting index term)) ⊎ (m.log ≡ n.log)
    → IsSpared n (proposing up kv req (m, r))
unfolding proposing
proposing-IsSpared up kv req n m (not_leader id) (inl (i, t, w)) = absurd (cc)
proposing-IsSpared up kv req n m (not_leader id) (inr same) = same
proposing-IsSpared up kv req n m wal_write_failed (inl (i, t, w)) = absurd (cc)
proposing-IsSpared up kv req n m wal_write_failed (inr same) = same
proposing-IsSpared up kv req n m wal_sync_failed (inl (i, t, w)) = absurd (cc)
proposing-IsSpared up kv req n m wal_sync_failed (inr same) = same
proposing-IsSpared up kv req n m (waiting i t) h = tt

propose-IsSpared :
    (payload : Bytes) (caller : ℕ) (up : Upstream) (kv : KvStore) (req : Request) (n : Node)
    → IsSpared n (proposing up kv req (propose payload caller n))
propose-IsSpared payload caller up kv req n =
    proposing-IsSpared up kv req n (propose payload caller n).0 (propose payload caller n).1
      (propose-log payload caller n)

handle_put-IsSpared :
    (up : Upstream) (c : Codec) (caller : ℕ) (kv : KvStore) (req : Request) (n later : Node)
    → IsSpared later (handle_put up c caller kv req n later)
unfolding handle_put
handle_put-IsSpared up c caller kv req n later = elim (Bool-cases (is_leader n.state)) [
  | inr off ↦ rw (handle_put, off) refl
  | inl on ↦ elim (Bool-cases (str_eq (key_of req) [])) [
    | inl empty ↦ rw (handle_put, on, empty) refl
    | inr named ↦ elim (Option-cases (c.body_value req.body)) [
      | inl invalid ↦ rw (handle_put, on, named, invalid) refl
      | inr (v, valid) ↦ rw (handle_put, on, named, valid) (propose-IsSpared _ caller up kv _ later)
    ]
  ]
]

handle_delete-IsSpared :
    (up : Upstream) (c : Codec) (caller : ℕ) (kv : KvStore) (req : Request) (n later : Node)
    → IsSpared later (handle_delete up c caller kv req n later)
unfolding handle_delete
handle_delete-IsSpared up c caller kv req n later = elim (Bool-cases (is_leader n.state)) [
  | inr off ↦ rw (handle_delete, off) refl
  | inl on ↦ elim (Bool-cases (str_eq (key_of req) [])) [
    | inl empty ↦ rw (handle_delete, on, empty) refl
    | inr named ↦ rw (handle_delete, on, named) (propose-IsSpared _ caller up kv _ later)
  ]
]

-- A write that is answered at once, with an error or by passing it on, has put nothing in the log:
-- only one that waits has.
answered_write_spares_log :
    (up : Upstream) (c : Codec) (caller : ℕ) (kv : KvStore) (req : Request) (n later : Node)
    → IsSpared later (handle_put up c caller kv req n later)
      × IsSpared later (handle_delete up c caller kv req n later)
answered_write_spares_log up c caller kv req n later = (
  handle_put-IsSpared up c caller kv req n later,
  handle_delete-IsSpared up c caller kv req n later,
)

proposing-awaiting :
    (up : Upstream) (kv : KvStore) (req : Request) (q : Node × ProposeResult) {m : Node}
    {index term : ℕ}
    → proposing up kv req q ≡ (m, awaiting index term)
    → q ≡ (m, waiting index term)
unfolding proposing
proposing-awaiting up kv req (n, not_leader id) h =
    absurd (let e = ap (λ (t : Node × Handling). t.1) h in cc)
proposing-awaiting up kv req (n, wal_write_failed) h =
    absurd (let e = ap (λ (t : Node × Handling). t.1) h in cc)
proposing-awaiting up kv req (n, wal_sync_failed) h =
    absurd (let e = ap (λ (t : Node × Handling). t.1) h in cc)
proposing-awaiting up kv req (n, waiting i t) h = ground arith

-- A PUT that waits: the node led, the path names a key, and the proposal is of its command.
pub handle_put-awaiting :
    (up : Upstream) (c : Codec) (caller : ℕ) (kv : KvStore) (req : Request) (n later : Node)
    {m : Node} {index term : ℕ}
    → handle_put up c caller kv req n later ≡ (m, awaiting index term)
    → (value : Bytes) × (c.body_value req.body ≡ some value)
      × IsServed req n
      × (propose (c.marshal (record { op = put_op; key = key_of req; value = value })) caller later
          ≡ (m, waiting index term))
unfolding handle_put
handle_put-awaiting up c caller kv req n later {m} {index} {term} h =
    elim (Bool-cases (is_leader n.state)) [
      | inr off ↦ absurd (let e = ap (λ (t : Node × Handling). t.1) h in ground arith)
      | inl on ↦ elim (Bool-cases (str_eq (key_of req) [])) [
        | inl empty ↦ absurd (let e = ap (λ (t : Node × Handling). t.1) h in ground arith)
        | inr named ↦ elim (Option-cases (c.body_value req.body)) [
          | inl invalid ↦ absurd (let e = ap (λ (t : Node × Handling). t.1) h in ground arith)
          | inr (v, valid) ↦
              let command : Command = record { op = put_op; key = key_of req; value = v } in
              let step : handle_put up c caller kv req n later
                  ≡ proposing up kv (record req { body = c.unread req.body })
                      (propose (c.marshal command) caller later) =
                rw (handle_put, on, named, valid) refl in
              (
                v,
                valid,
                (on, λ e. ground (arith, str_eq_iff (key_of req) [])),
                proposing-awaiting up kv (record req { body = c.unread req.body })
                    (propose (c.marshal command) caller later) (sym step ∙ h),
              )
        ]
      ]
    ]
