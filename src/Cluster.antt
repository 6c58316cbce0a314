-- ===== src/Cluster.antt =====
-- transport/inmem.go: the transport of a cluster in one process. A call runs the peer's handler if
-- the proxy lets the message through within the time that the caller's context leaves.
pub mod Nodes
pub mod Isolated
mod Tests
use raftly.Common.{
  ℕ, List, [], ◌∷◌, Option, none, some, Bool, true, false, not, Bytes, ltb, is_positive, str_eq,
  if◌then◌else◌, ◌>>=◌, u64,
}
use raftly.Message.{VoteRequest, VoteResponse, AppendEntriesRequest, AppendEntriesResponse}
use raftly.Node.{Node, Env}
use raftly.Election.{handle_request_vote, handle_pre_vote}
use raftly.Replication.{handle_append_entries}
use raftly.Proxy.{NetworkProxy, Roll, should_deliver}

-- The registry: the nodes under the IDs that they registered with.
abbrev pub Registry : Type 0
Registry = List (Bytes × Node)

abbrev pub find_node : Bytes → Registry → Option Node
find_node id [] = none
find_node id (p ∷ ps) = let later = find_node id ps in if str_eq p.0 id then some p.1 else later

-- `add`, and what a handler makes of a node.
abbrev pub set_node : Bytes → Node → Registry → Registry
set_node id n [] = (id, n) ∷ []
set_node id n (p ∷ ps) =
    let later = set_node id n ps in if str_eq p.0 id then (id, n) ∷ ps else p ∷ later

unfoldable pub register : Bytes → Node → Registry → Registry
register id n r = set_node id n r

-- What one call reads from its surroundings: `remaining` is the time to the context's deadline.
pub record Surroundings : Type 0 where
  pub env : Env
  pub roll : Roll
  pub remaining : ℕ

-- False is an error: the message is dropped, or the context ends before the delay does.
unfoldable pub apply_proxy : Surroundings → NetworkProxy → Bytes → Bytes → Bool
apply_proxy s proxy from to =
    let (deliver, delay) = should_deliver s.roll proxy from to in
    if not deliver then false else if is_positive delay then ltb delay s.remaining else true

-- In the three calls `none` is an error returned to the caller.
unfoldable pub send_request_vote :
    Surroundings
    → NetworkProxy
    → Bytes
    → Bytes
    → VoteRequest
    → Registry
    → Registry × Option VoteResponse
send_request_vote s proxy from peer_id req r =
    if not (apply_proxy s proxy from peer_id) then (r, none) else elim (find_node peer_id r) [
      | none ↦ (r, none)
      | some peer ↦
          let (after, resp) = handle_request_vote s.env req peer in
          (set_node peer_id after r, some resp)
    ]

unfoldable pub send_pre_vote :
    Surroundings → NetworkProxy → Bytes → Bytes → VoteRequest → Registry → Option VoteResponse
send_pre_vote s proxy from peer_id req r =
    if not (apply_proxy s proxy from peer_id)
    then none
    else elim (find_node peer_id r) [ none ↦ none | some peer ↦ some (handle_pre_vote req peer) ]

-- Here the outer `none` is a panic in the handler.
unfoldable pub send_append_entries :
    Surroundings
    → NetworkProxy
    → Bytes
    → Bytes
    → AppendEntriesRequest
    → Registry
    → Option (Registry × Option AppendEntriesResponse)
send_append_entries s proxy from peer_id req r =
    if not (apply_proxy s proxy from peer_id) then some (r, none) else elim (find_node peer_id r) [
      | none ↦ some (r, none)
      | some peer ↦ do
        (after, resp) ← handle_append_entries s.env req peer
        some (set_node peer_id after r, some resp)
    ]
