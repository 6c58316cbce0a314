-- ===== src/Leader/Backup.antt =====
-- raft/replication.go: what `replicateTo` makes of a refusal that names a conflicting term.
use raftly.Common.{
  ℕ, zero, suc, ◌+◌, ◌-◌, ◌^◌, ◌≤◌, ◌<◌, ◌≡◌, ◌≢◌, refl, ap, ◌∙◌, List, [], ◌∷◌, none, some, true,
  false, Bytes, length, get_elem?-lt_length, Option-cases, Bool-cases, inl, inr, u64, str_eq, arith,
}
use raftly.Log.{LogEntry, RaftLog, get_entry, last_index}
use raftly.Log.Shape.{IsWellFormed, last_index-length}
use raftly.Message.{AppendEntriesRequest, AppendEntriesResponse}
use raftly.Node.{Node, Peer, Env, is_leader}
use raftly.Leader.{
  find_peer, set_peer, backed_up, next_after_term, prev_term, replicate_request, replicate_response,
}

-- No entry of the log is of the term.
abbrev pub Lacks : RaftLog → ℕ → Type 0
Lacks l term = (i : ℕ) (e : LogEntry) → get_entry l i ≡ some e → e.term ≢ term

next_after_term-Lacks : (l : RaftLog) (term i : ℕ) → Lacks l term → next_after_term l term i ≡ term
unfolding next_after_term
next_after_term-Lacks l term zero h = refl
next_after_term-Lacks l term (suc i) h = elim (Option-cases (get_entry l (suc i))) [
  | inl missing ↦ ground arith
  | inr (e, found) ↦ ground (arith, h (suc i) e found, next_after_term-Lacks l term i h)
]

find_peer-set_peer :
    (id : Bytes) (f : Peer → Peer) (ps : List Peer) {p : Peer}
    → ((q : Peer) → (f q).id ≡ q.id)
    → find_peer id ps ≡ some p
    → find_peer id (set_peer id f ps) ≡ some (f p)
find_peer-set_peer id f [] same found = absurd (cc)
find_peer-set_peer id f (q ∷ qs) {p} same found = elim (Bool-cases (str_eq q.id id)) [
  | inl here ↦
      let e : q ≡ p = ground arith in
      let s : str_eq (f q).id id ≡ true = rw (same q) here in rw (here, s, e) refl
  | inr not_here ↦
      let later : find_peer id qs ≡ some p = ground arith in
      rw (not_here, not_here) (find_peer-set_peer id f qs same later)
]

prev_term-end : (n : Node) (i : ℕ) → length n.log.entries ≤ i → 0 < i → prev_term n i ≡ none
unfolding prev_term get_entry
prev_term-end n i le pos = elim (Option-cases (get_entry n.log i)) [
  | inl missing ↦ ground arith
  | inr (e, found) ↦ absurd (omega (arith, get_elem?-lt_length n.log.entries i found))
]

silent :
    (peer_id : Bytes) (n : Node) {p : Peer}
    → find_peer peer_id n.peers ≡ some p
    → length n.log.entries < p.next_index
    → 1 < p.next_index
    → p.next_index < 2 ^ 64
    → replicate_request peer_id n ≡ none
unfolding replicate_request
silent peer_id n {p} found far pos small =
    let z : prev_term n (u64 (p.next_index + 2 ^ 64 - 1)) ≡ none =
      prev_term-end n _ (omega arith) (omega arith) in
    elim (Bool-cases (is_leader n.state)) [
      | inl leads ↦ rw (replicate_request, leads, found, z) refl
      | inr off ↦ rw (replicate_request, off) refl
    ]

-- The leader looks for the last own entry of the conflicting term, and if it has none, takes the
-- term itself for the next index. From then on, as long as its record of the follower stays and the
-- term is more than one past the end of its log, it sends the follower nothing: no heartbeat either.
pub conflict_stalls :
    (env : Env) (peer_id : Bytes) (n : Node) {p : Peer} (req : AppendEntriesRequest)
    (resp : AppendEntriesResponse)
    → is_leader n.state ≡ true
    → find_peer peer_id n.peers ≡ some p
    → n.current_term ≡ req.term
    → resp.term ≤ n.current_term
    → resp.success ≡ false
    → Lacks n.log resp.conflict_term
    → resp.conflict_term < 2 ^ 64
    → (later : Node)
    → find_peer peer_id later.peers
      ≡ find_peer peer_id (replicate_response env peer_id req resp n).peers
    → IsWellFormed later.log
    → last_index later.log + 1 < resp.conflict_term
    → replicate_request peer_id later ≡ none
unfolding replicate_response
conflict_stalls env peer_id n {p} req resp leads found current low refused lacks small later same w
      far =
    let m : Node = record n { peers = set_peer peer_id (backed_up n.log resp) n.peers } in
    let step : replicate_response env peer_id req resp n ≡ m = ground arith in
    let next = next_after_term-Lacks n.log resp.conflict_term (last_index n.log) lacks in
    let moved = find_peer-set_peer peer_id (backed_up n.log resp) n.peers (λ q. refl) found in
    let at : (backed_up n.log resp p).next_index ≡ resp.conflict_term = ground (arith, next) in
    let kept : find_peer peer_id later.peers ≡ some (backed_up n.log resp p) =
      same ∙ ap (λ (k : Node). find_peer peer_id k.peers) step ∙ moved in
    silent peer_id later kept (rw at (omega (arith, last_index-length w))) (rw at (omega arith))
      (rw at small)
