-- ===== src/Leader/Request.antt =====
-- raft/replication.go: what `replicateTo` sends, and what a follower holds after it has accepted it.
use raftly.Common.{
  ℕ, take_all, suc, ◌+◌, ◌-◌, ◌^◌, ◌≤◌, ◌<◌, ◌≡◌, refl, some, true, Bytes, length, get_elem?, drop,
  get_elem?-le_length, ◌⊎◌, ◌==◌, Option-cases, Bool-cases, inl, inr, length-drop, u64, arith,
}
use raftly.Log.{LogEntry, get_entry, get_entries, last_index}
use raftly.Log.Shape.{Contiguous, Contiguous-drop, IsWellFormed, last_index-length}
use raftly.Message.{AppendEntriesRequest}
use raftly.Node.{Node, Peer, is_leader}
use raftly.Leader.{find_peer, prev_term, entries_from, replicate_request}
use raftly.Replication.Follower.{PrevMatches}

-- The entries sent are the log's from `next_index` on.
entries_from_lem :
    (n : Node) (next : ℕ)
    → IsWellFormed n.log
    → next ≤ last_index n.log + 1
    → last_index n.log + 1 < 2 ^ 64
    → entries_from n next ≡ some (drop next n.log.entries)
unfolding entries_from get_entries
entries_from_lem n next w le small = ground (
  arith,
  last_index-length w,
  take_all (length n.log.entries - next) (drop next n.log.entries),
  length-drop next n.log.entries,
)

prev_term_lem :
    (n : Node) (prev : ℕ)
    → prev < length n.log.entries
    → (t : ℕ) × (prev_term n prev ≡ some t)
      × ((prev ≡ 0) ⊎ ((e : LogEntry) × (get_entry n.log prev ≡ some e) × (e.term ≡ t)))
unfolding prev_term get_entry
prev_term_lem n prev lt = elim (Bool-cases (prev == 0)) [
  | inl first ↦ (0, ground arith, inl (ground arith))
  | inr later ↦ elim (Option-cases (get_elem? n.log.entries prev)) [
    | inl missing ↦ absurd (omega (arith, get_elem?-le_length n.log.entries prev missing))
    | inr (e, found) ↦ (e.term, ground arith, inr (e, found, refl))
  ]
]

-- The message for a follower whose next index is `next`.
pub record Sent (n : Node) (next : ℕ) (req : AppendEntriesRequest) : Type 0 where
  pub term : req.term ≡ n.current_term
  pub prev : suc req.prev_log_index ≡ next
  pub matches : PrevMatches req n.log
  pub entries : req.entries ≡ drop next n.log.entries
  pub contiguous : Contiguous (suc req.prev_log_index) req.entries
  pub commit : req.leader_commit ≡ n.log.commit_index

before_next : (next : ℕ) → 1 ≤ next → next < 2 ^ 64 → suc (u64 (next + 2 ^ 64 - 1)) ≡ next
before_next next h small = omega arith

abbrev message : Node → ℕ → ℕ → AppendEntriesRequest
message n next prev_term = record {
  term = n.current_term;
  leader_id = n.id;
  prev_log_index = u64 (next + 2 ^ 64 - 1);
  prev_log_term = prev_term;
  entries = drop next n.log.entries;
  leader_commit = n.log.commit_index;
}

-- A leader whose record of the follower's next index is between 1 and one past its own last index
-- sends all its entries from there on, with the index and the term of the entry before them and its
-- own commit index; the entries' indexes follow on one another.
pub replicate_request-Sent :
    (peer_id : Bytes) (n : Node) {p : Peer}
    → IsWellFormed n.log
    → is_leader n.state ≡ true
    → find_peer peer_id n.peers ≡ some p
    → 1 ≤ p.next_index
    → p.next_index ≤ last_index n.log + 1
    → last_index n.log + 1 < 2 ^ 64
    → (req : AppendEntriesRequest) × (replicate_request peer_id n ≡ some req)
      × Sent n p.next_index req
unfolding replicate_request
replicate_request-Sent peer_id n {p} w leads found one bound small =
    let prev : ℕ = u64 (p.next_index + 2 ^ 64 - 1) in
    let at_prev : suc prev ≡ p.next_index = before_next p.next_index one (omega arith) in
    let (t, term_is, matches) = prev_term_lem n prev (omega (arith, last_index-length w)) in
    let entries_are = entries_from_lem n p.next_index w bound small in
    (
      message n p.next_index t,
      rw (replicate_request, leads, found, term_is, entries_are) refl,
      record {
        term = refl;
        prev = at_prev;
        matches = matches;
        entries = refl;
        contiguous = rw at_prev (
            let z : 0 + p.next_index ≡ p.next_index = omega arith in
            rw z at (Contiguous-drop 0 p.next_index n.log.entries w.contiguous));
        commit = refl;
      },
    )
