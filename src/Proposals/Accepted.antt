-- ===== src/Proposals/Accepted.antt =====
-- raft/node.go: what `Propose` has done when it starts to wait, and when it returns an error.
use raftly.Common.{
  ℕ, ◌+◌, ◌^◌, ◌<◌, ◌≡◌, [], ◌∷◌, some, true, Bytes, length, get_elem?-append_right, Bool-cases,
  inl, inr, arith,
}
use raftly.Log.{get_entry, append, last_index}
use raftly.Log.Shape.{IsWellFormed, last_index-length}
use raftly.Log.Keeps.{append-IsWellFormed, committed, committed-append}
use raftly.Wal.Ops.{save_entry, sync}
use raftly.Node.{Node, is_leader}
use raftly.Proposals.{waiting, proposed, caller_at, propose}

-- The proposal is in the log, at its end, on disk, and its caller is remembered.
pub record Accepted (payload : Bytes) (caller : ℕ) (n m : Node) (index term : ℕ) : Type 0 where
  pub led : is_leader n.state ≡ true
  pub index_of : index ≡ last_index n.log + 1
  pub term_of : term ≡ n.current_term
  pub log_of : m.log ≡ append n.log (proposed payload n ∷ [])
  pub wal_of : m.wal ≡ (sync (save_entry (proposed payload n) n.wal).0).0
  pub written : (save_entry (proposed payload n) n.wal).1 ≡ true
  pub synced : (sync (save_entry (proposed payload n) n.wal).0).1 ≡ true
  pub remembered : caller_at index m.proposals ≡ some caller

pub propose-waiting :
    (payload : Bytes) (caller : ℕ) (n : Node) {m : Node} {index term : ℕ}
    → last_index n.log + 1 < 2 ^ 64
    → propose payload caller n ≡ (m, waiting index term)
    → Accepted payload caller n m index term
unfolding propose
propose-waiting payload caller n {m} {index} {term} small q =
    elim (Bool-cases (is_leader n.state)) [
      | inr off ↦ absurd (ground arith)
      | inl on ↦ elim (Bool-cases (save_entry (proposed payload n) n.wal).1) [
        | inr unwritten ↦ absurd (ground arith)
        | inl written ↦ elim (Bool-cases (sync (save_entry (proposed payload n) n.wal).0).1) [
          | inr unsynced ↦ absurd (ground arith)
          | inl synced ↦ record {
            led = on;
            index_of = ground arith;
            term_of = ground arith;
            log_of = ground arith;
            wal_of = ground arith;
            written = written;
            synced = synced;
            remembered = ground arith;
          }
        ]
      ]
    ]

-- A caller that starts to wait has its entry at the end of the leader's log, under the index and
-- the term that it is told, and the log is well formed with what was committed before.
pub propose-Accepted :
    (payload : Bytes) (caller : ℕ) (n : Node) {m : Node} {index term : ℕ}
    → IsWellFormed n.log
    → last_index n.log + 1 < 2 ^ 64
    → propose payload caller n ≡ (m, waiting index term)
    → IsWellFormed m.log
      × (committed m.log ≡ committed n.log)
      × (index ≡ length n.log.entries)
      × (term ≡ n.current_term)
      × (get_entry m.log index ≡ some (proposed payload n))
      × (caller_at index m.proposals ≡ some caller)
unfolding get_entry append
propose-Accepted payload caller n {m} {index} w small q =
    let a = propose-waiting payload caller n small q in
    let at_end : index ≡ length n.log.entries = omega (arith, a.index_of, last_index-length w) in
    let follows : (proposed payload n).index ≡ length n.log.entries =
      omega (arith, last_index-length w) in
    let es = proposed payload n ∷ [] in
    (
      rw a.log_of (append-IsWellFormed es w (follows, tt)),
      rw a.log_of (committed-append es w),
      at_end,
      a.term_of,
      rw a.log_of (get_elem?-append_right n.log.entries es 0 index (omega (arith, at_end))),
      a.remembered,
    )
