-- ===== src/Leader/Commit.antt =====
-- raft/replication.go: when `maybeCommit` moves the commit index.
use mathlib.Core.Path.{subst}
use raftly.Common.{
  ℕ, ◌≤◌, ◌<◌, ◌≡◌, ◌↔◌, refl, sym, some, get_or, true, get_elem?-lt_length, ltb, leb, ◌==◌,
  Option-cases, Bool-cases, inl, inr, arith,
}
use raftly.Log.{LogEntry, RaftLog, get_entry, commit_to}
use raftly.Log.Shape.{IsWellFormed}
use raftly.Node.{Node, is_leader, quorum}
use raftly.Leader.{match_indexes, quorum_match_index, commit_at, maybe_commit}
use raftly.Leader.Sorted.{count_ge}
use raftly.Leader.Majority.{quorum_match_index_lem}
use raftly.Replication.Safety.{Kept}

-- `v` is the highest index that a quorum holds, and the entry there is of the current term.
pub record Committable (n : Node) (v : ℕ) : Type 0 where
  pub leads : is_leader n.state ≡ true
  pub held : quorum n ≤ count_ge v (match_indexes n)
  pub highest : (u : ℕ) → v < u → count_ge u (match_indexes n) < quorum n
  pub own_term : (e : LogEntry) × (get_entry n.log v ≡ some e) × (e.term ≡ n.current_term)

commit_to-found :
    (l : RaftLog) (v : ℕ) {e : LogEntry}
    → get_entry l v ≡ some e
    → l.commit_index < v
    → get_or (commit_to l v) l ≡ record l { commit_index = v }
unfolding get_entry commit_to
commit_to-found l v found lt = ground (arith, get_elem?-lt_length l.entries v found)

commit_at-moves :
    (n : Node) (v : ℕ)
    → n.log.commit_index < v
    → (w : ℕ) → n.log.commit_index < w
    → ((commit_at v n).log.commit_index ≡ w)
      ↔ ((w ≡ v) × ((e : LogEntry) × (get_entry n.log w ≡ some e) × (e.term ≡ n.current_term)))
unfolding commit_at
commit_at-moves n v lt w ltw = elim (Option-cases (get_entry n.log v)) [
  | inl missing ↦
      rw (missing, commit_at)
        (λ p. absurd (omega arith), λ q. absurd (let z = rw q.0 at q.1.1 in cc))
  | inr (e, found) ↦ elim (Bool-cases (e.term == n.current_term)) [
    | inl same ↦
        let c = commit_to-found n.log v found lt in
        let z : (commit_at v n).log ≡ record (n.log) { commit_index = v } =
          rw (found, same, commit_at) c in
        rw z (λ p. (sym p, (e, rw (sym p) found, ground arith)), λ q. sym (q.0))
    | inr other ↦
        let z : (commit_at v n).log ≡ n.log = rw (found, other, commit_at) refl in
        rw z (λ p. absurd (omega arith), λ q. absurd (let z = rw q.0 at q.1.1 in ground arith))
  ]
]

pinned : (n : Node) (v : ℕ) → Committable n v → v ≡ quorum_match_index n
pinned n v c =
    let found = quorum_match_index_lem n in
    elim (Bool-cases (ltb v (quorum_match_index n))) [
      | inl lt ↦
          absurd (
            let few = c.highest (quorum_match_index n) (ground arith) in
            omega (arith, few, found.0))
      | inr ge ↦ elim (Bool-cases (ltb (quorum_match_index n) v)) [
        | inl gt ↦ absurd (let few = found.1 v (ground arith) in omega (arith, few, c.held))
        | inr le ↦ ground arith
      ]
    ]

at_quorum :
    (n : Node) {v : ℕ}
    → is_leader n.state ≡ true
    → (v ≡ quorum_match_index n)
      × ((e : LogEntry) × (get_entry n.log v ≡ some e) × (e.term ≡ n.current_term))
    → Committable n v
at_quorum n {v} leads (p, own) =
    let found = quorum_match_index_lem n in
    subst
      (λ i.
        ((e : LogEntry) × (get_entry n.log i ≡ some e) × (e.term ≡ n.current_term))
        → Committable n i)
      (sym p) (λ own. record { leads = leads; held = found.0; highest = found.1; own_term = own })
      own

-- The commit index moves to an index exactly when the node leads, a quorum of the cluster holds
-- that index and none higher, and the entry there is of the node's own term.
pub maybe_commit_iff :
    (n : Node) (v : ℕ)
    → n.log.commit_index < v
    → ((maybe_commit n).log.commit_index ≡ v) ↔ Committable n v
unfolding maybe_commit
maybe_commit_iff n v lt = elim (Bool-cases (is_leader n.state)) [
  | inr off ↦
      rw (off, maybe_commit) (λ p. absurd (omega arith), λ c. absurd (ground (arith, c.leads)))
  | inl on ↦ elim (Bool-cases (leb (quorum_match_index n) n.log.commit_index)) [
    | inl low ↦
        rw (on, low, maybe_commit)
          (λ p. absurd (omega arith), λ c. absurd (ground (arith, pinned n v c)))
    | inr high ↦
        let moves = commit_at-moves n (quorum_match_index n) (ground arith) v lt in
        rw (on, high, maybe_commit)
          (λ p. at_quorum n on (moves.0 p), λ c. moves.1 (pinned n v c, c.own_term))
  ]
]

commit_at-Kept :
    (n : Node) (v : ℕ) → IsWellFormed n.log → n.log.commit_index < v → Kept n (commit_at v n)
unfolding commit_at get_entry commit_to
commit_at-Kept n v w lt = elim (Option-cases (get_entry n.log v)) [
  | inl missing ↦ ground arith
  | inr (e, found) ↦ ground (arith, get_elem?-lt_length n.log.entries v found)
]

-- Whatever the peers acknowledged, the log stays well formed, the committed entries stay, the
-- commit index does not move back, and neither the term nor `lastApplied` changes.
pub maybe_commit-Kept : (n : Node) → IsWellFormed n.log → Kept n (maybe_commit n)
unfolding maybe_commit
maybe_commit-Kept n w = ground (arith, commit_at-Kept n (quorum_match_index n) w)
