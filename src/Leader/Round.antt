-- ===== src/Leader/Round.antt =====
-- raft/replication.go: one message of `replicateTo` and the follower's handler, put together.
use mathlib.Core.Path.{subst}
use raftly.Common.{
  ℕ, suc, ◌+◌, ◌-◌, ◌^◌, ◌≤◌, ◌<◌, ◌≡◌, sym, ◌∙◌, ap, none, some, true, Bytes, length, get_elem?,
  get_elem?-take, get_elem?-drop, All-get_elem?, get_elem?-le_length, Option-cases, Bool-cases, ltb,
  inl, inr, arith,
}
use raftly.Log.{LogEntry, RaftLog, get_entry, last_index}
use raftly.Log.Shape.{IsWellFormed, get_entry-index, last_index-length}
use raftly.Message.{AppendEntriesRequest, AppendEntriesResponse}
use raftly.Node.{Node, Peer, Env, is_leader}
use raftly.Leader.{find_peer, replicate_request}
use raftly.Leader.Request.{Sent, replicate_request-Sent}
use raftly.Replication.{handle_append_entries}
use raftly.Replication.Follower.{PrevMatches}
use raftly.Replication.Matching.{Has}
use raftly.Replication.Safety.{Agrees, handle_append_entries-Agrees}

-- A log that has an entry at an index with the term that the leader's entry there has.
abbrev pub SameAt : RaftLog → RaftLog → ℕ → Type 0
SameAt l l' i =
    (e : LogEntry) × (f : LogEntry) × (get_entry l i ≡ some e)
    × (get_entry l' i ≡ some f)
    × (e.term ≡ f.term)

message_entry :
    {n : Node} {next : ℕ} {req : AppendEntriesRequest} (i : ℕ) {e : LogEntry}
    → Sent n next req
    → next ≤ i
    → get_entry n.log i ≡ some e
    → get_elem? req.entries (i - next) ≡ some e
unfolding get_entry
message_entry {n} {next} i s le found =
    let z : next + (i - next) ≡ i = omega arith in
    rw s.entries (get_elem?-drop next (i - next) n.log.entries ∙ rw z found)

accepted_entry :
    {n f f' : Node} {next : ℕ} {req : AppendEntriesRequest} (i : ℕ) {e : LogEntry}
    → IsWellFormed n.log
    → Sent n next req
    → Agrees req f f'
    → next ≤ i
    → get_entry n.log i ≡ some e
    → SameAt n.log f'.log i
accepted_entry {f' = f'} {req = req} i {e} w s a le found =
    let (g, there, t) =
      All-get_elem? (Has f'.log) req.entries _ a.present (message_entry i s le found) in
    let at_i : e.index ≡ i = get_entry-index i w found in
    (e, g, found, subst (λ j. get_entry f'.log j ≡ some g) at_i there, sym t)

kept_entry :
    {f f' : Node} {req : AppendEntriesRequest} {g : LogEntry}
    → Agrees req f f'
    → get_entry f.log req.prev_log_index ≡ some g
    → get_entry f'.log req.prev_log_index ≡ some g
unfolding get_entry
kept_entry {f} {f'} {req} a found =
    sym (get_elem?-take (suc req.prev_log_index) f'.log.entries req.prev_log_index (omega arith))
    ∙ ap (λ t. get_elem? t req.prev_log_index) a.below
    ∙ get_elem?-take (suc req.prev_log_index) f.log.entries req.prev_log_index (omega arith)
    ∙ found

accepted_prev :
    {n f f' : Node} {next : ℕ} {req : AppendEntriesRequest}
    → Sent n next req
    → Agrees req f f'
    → 0 < req.prev_log_index
    → SameAt n.log f'.log req.prev_log_index
accepted_prev {n} {f} {f'} {req = req} s a pos = go s.matches a.previous
  where
    go : PrevMatches req n.log → PrevMatches req f.log → SameAt n.log f'.log req.prev_log_index
    go (inl z) q = absurd (omega arith)
    go (inr p) (inl z) = absurd (omega arith)
    go (inr (e, found, t)) (inr (g, there, u)) = (e, g, found, kept_entry a there, t ∙ sym u)

get_entry-none : (l : RaftLog) (i : ℕ) → get_entry l i ≡ none → length l.entries ≤ i
unfolding get_entry
get_entry-none l i missing = get_elem?-le_length l.entries i missing

-- One round. The leader sends what `replicateTo` makes for a follower, and the follower replies
-- with success: then the follower has, at the index before the message's entries and at every index
-- from there to the leader's last, an entry of the term of the leader's entry.
pub replicated_round :
    (env : Env) (peer_id : Bytes) (n f : Node) {p : Peer} {req : AppendEntriesRequest} {f' : Node}
    {r : AppendEntriesResponse}
    → IsWellFormed n.log
    → is_leader n.state ≡ true
    → find_peer peer_id n.peers ≡ some p
    → 1 ≤ p.next_index
    → p.next_index ≤ last_index n.log + 1
    → last_index n.log + 1 < 2 ^ 64
    → IsWellFormed f.log
    → replicate_request peer_id n ≡ some req
    → handle_append_entries env req f ≡ some (f', r)
    → r.success ≡ true
    → (i : ℕ) → 0 < i
    → p.next_index ≤ i + 1
    → i ≤ last_index n.log
    → SameAt n.log f'.log i
replicated_round env peer_id n f {p} {req} {f'} {r} w leads found one bound small wf sends handles
      ok i pos from to =
    let (req1, sends1, sent1) = replicate_request-Sent peer_id n w leads found one bound small in
    let same : req1 ≡ req = ground arith in
    let sent = subst (Sent n p.next_index) same sent1 in
    let agrees = handle_append_entries-Agrees env req f wf sent.contiguous handles ok in
    elim (Bool-cases (ltb i p.next_index)) [
      | inl before ↦
          let e : req.prev_log_index ≡ i = ground (arith, sent.prev) in
          subst (SameAt n.log f'.log) e (accepted_prev sent agrees (omega (arith, e)))
      | inr after ↦ elim (Option-cases (get_entry n.log i)) [
        | inl missing ↦ absurd (omega (arith, last_index-length w, get_entry-none n.log i missing))
        | inr (e, there) ↦ accepted_entry i w sent agrees (ground arith) there
      ]
    ]
