-- ===== src/Leader.antt =====
-- raft/replication.go: the leader's side, `maybeSendHeartbeats`, `replicateTo` and `maybeCommit`.
-- The peers are a list in place of the map.
pub mod Sorted
pub mod Majority
pub mod Commit
pub mod Request
pub mod Round
pub mod Backup
mod Tests
use raftly.Common.{
  ℕ, zero, suc, ◌+◌, ◌-◌, ◌^◌, List, [], ◌∷◌, ◌++◌, map, Option, none, some, get_or, Bool, true,
  false, not, ◌||◌, Bytes, length, get_elem?, ltb, leb, ◌==◌, u64, str_eq, if◌then◌else◌, ◌>>=◌,
}
use raftly.Log.{LogEntry, RaftLog, last_index, get_entry, get_entries, commit_to}
use raftly.Message.{AppendEntriesRequest, AppendEntriesResponse}
use raftly.Node.{
  Peer, Node, Env, apply_committed, replicate_to, spawn, is_leader, become_follower, quorum,
}

-- `sort.Slice` in ascending order.
unfoldable pub insert_sorted : ℕ → List ℕ → List ℕ
insert_sorted x [] = x ∷ []
insert_sorted x (y ∷ ys) =
    let later = insert_sorted x ys in if leb x y then x ∷ y ∷ ys else y ∷ later

unfoldable pub sort : List ℕ → List ℕ
unfolding insert_sorted
sort [] = []
sort (x ∷ xs) = insert_sorted x (sort xs)

-- The leader's own last index, and what is known of the peers.
abbrev pub match_indexes : Node → List ℕ
match_indexes n = last_index n.log ∷ map (λ p. p.match_index) n.peers

-- `matchIndexes[len(matchIndexes)-n.quorum()]`; the index is in range.
unfoldable pub quorum_match_index : Node → ℕ
quorum_match_index n =
    get_or (get_elem? (sort (match_indexes n)) (length (match_indexes n) - quorum n)) 0

-- The last part: an entry of the current term is committed.
unfoldable pub commit_at : ℕ → Node → Node
commit_at index n = elim (get_entry n.log index) [
  | none ↦ n
  | some e ↦
      if not (e.term == n.current_term)
      then n
      else spawn apply_committed (record n { log = get_or (commit_to n.log index) n.log })
]

unfoldable pub maybe_commit : Node → Node
maybe_commit n =
    if not (is_leader n.state)
    then n
    else if leb (quorum_match_index n) n.log.commit_index
    then n
    else commit_at (quorum_match_index n) n

abbrev pub spawn_replicas : List Peer → Node → Node
spawn_replicas [] n = n
spawn_replicas (p ∷ ps) n = spawn_replicas ps (spawn (replicate_to p.id) n)

unfoldable pub maybe_send_heartbeats : Node → Node
maybe_send_heartbeats n =
    if not (is_leader n.state)
    then n
    else spawn apply_committed (spawn_replicas n.peers (maybe_commit n))

abbrev pub find_peer : Bytes → List Peer → Option Peer
find_peer id [] = none
find_peer id (p ∷ ps) = let later = find_peer id ps in if str_eq p.id id then some p else later

-- A write through the pointer to the peer of that ID.
abbrev pub set_peer : Bytes → (Peer → Peer) → List Peer → List Peer
set_peer id f [] = []
set_peer id f (p ∷ ps) =
    let later = set_peer id f ps in if str_eq p.id id then f p ∷ ps else p ∷ later

-- The term of the entry before the first to send; `none` is the return on a missing entry.
unfoldable pub prev_term : Node → ℕ → Option ℕ
prev_term n prev_log_index =
    if prev_log_index == 0
    then some 0
    else elim (get_entry n.log prev_log_index) [ none ↦ none | some prev ↦ some prev.term ]

unfoldable pub entries_from : Node → ℕ → Option (List LogEntry)
entries_from n next_index =
    let last = last_index n.log in
    if leb next_index last then get_entries n.log next_index (u64 (last + 1)) else some []

-- The first half of `replicateTo`, under the lock: the message, or `none` for a return.
unfoldable pub replicate_request : Bytes → Node → Option AppendEntriesRequest
replicate_request peer_id n = if not (is_leader n.state) then none else do
  peer ← find_peer peer_id n.peers
  let prev_log_index = u64 (peer.next_index + 2 ^ 64 - 1)
  prev_log_term ← prev_term n prev_log_index
  entries ← entries_from n peer.next_index
  some (record {
    term = n.current_term;
    leader_id = n.id;
    prev_log_index = prev_log_index;
    prev_log_term = prev_log_term;
    entries = entries;
    leader_commit = n.log.commit_index;
  })

-- The loop that looks for the last own entry of the conflicting term, from index `i` down.
unfoldable pub next_after_term : RaftLog → ℕ → ℕ → ℕ
next_after_term l conflict_term zero = conflict_term
next_after_term l conflict_term (suc i) =
    let back = next_after_term l conflict_term i in
    elim (get_entry l (suc i)) [
      | none ↦ conflict_term
      | some e ↦ if e.term == conflict_term then u64 (suc i + 1) else back
    ]

abbrev pub acknowledged : AppendEntriesRequest → Peer → Peer
acknowledged req p =
    let new_match = u64 (req.prev_log_index + length req.entries) in
    let matched = if ltb p.match_index new_match then new_match else p.match_index in
    record p { match_index = matched; next_index = u64 (matched + 1) }

abbrev pub backed_up : RaftLog → AppendEntriesResponse → Peer → Peer
backed_up l resp p =
    let next =
      if ltb 0 resp.conflict_term
      then next_after_term l resp.conflict_term (last_index l)
      else resp.conflict_index in
    record p { next_index = if ltb next 1 then 1 else next }

-- The second half of `replicateTo`, under the lock again: the answer to `req`.
unfoldable pub replicate_response :
    Env → Bytes → AppendEntriesRequest → AppendEntriesResponse → Node → Node
replicate_response env peer_id req resp n =
    if not (is_leader n.state) || not (n.current_term == req.term)
    then n
    else if ltb n.current_term resp.term
    then become_follower env resp.term [] n
    else if resp.success
    then maybe_commit (record n { peers = set_peer peer_id (acknowledged req) n.peers })
    else record n { peers = set_peer peer_id (backed_up n.log resp) n.peers }
