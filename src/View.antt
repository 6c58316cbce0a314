-- ===== src/View.antt =====
-- server/api.go: what a node shows of itself and of the cluster, and the stream of events. The
-- timestamps are left out; a view arrives from a peer as it was sent. raft/config.go: the names of
-- the roles.
pub mod Summary
pub mod Events
mod Tests
use raftly.Common.{
  ℕ, List, [], ◌∷◌, ◌++◌, Option, none, some, Bool, true, false, not, ◌&&◌, Bytes, ltb, str_eq,
  if◌then◌else◌,
}
use raftly.Config.{NodeState, follower, candidate, pre_candidate, leader}
use raftly.Node.{Node}
use raftly.Lifecycle.{status}
use raftly.Http.{Delivery, lost, unanswered, returned, http_address, str_lt, sort_strings, ids_of}

abbrev pub follower_name : Bytes
follower_name = 70 ∷ 111 ∷ 108 ∷ 108 ∷ 111 ∷ 119 ∷ 101 ∷ 114 ∷ []

abbrev pub candidate_name : Bytes
candidate_name = 67 ∷ 97 ∷ 110 ∷ 100 ∷ 105 ∷ 100 ∷ 97 ∷ 116 ∷ 101 ∷ []

abbrev pub pre_candidate_name : Bytes
pre_candidate_name = 80 ∷ 114 ∷ 101 ∷ 67 ∷ 97 ∷ 110 ∷ 100 ∷ 105 ∷ 100 ∷ 97 ∷ 116 ∷ 101 ∷ []

abbrev pub leader_name : Bytes
leader_name = 76 ∷ 101 ∷ 97 ∷ 100 ∷ 101 ∷ 114 ∷ []

abbrev pub down_name : Bytes
down_name = 68 ∷ 111 ∷ 119 ∷ 110 ∷ []

abbrev pub state_string : NodeState → Bytes
state_string follower = follower_name
state_string candidate = candidate_name
state_string pre_candidate = pre_candidate_name
state_string leader = leader_name

pub record NodeView : Type 0 where
  pub id : Bytes
  pub state : Bytes
  pub term : ℕ
  pub leader_id : Bytes
  pub commit_index : ℕ
  pub last_applied : ℕ
  pub reachable : Bool

pub record ClusterView : Type 0 where
  pub nodes : List NodeView
  pub leader_id : Bytes
  pub term : ℕ

-- A node's own view, and the fields of the response of `HandleStatus`.
unfoldable pub handle_status : Node → NodeView
handle_status n = record {
  id = (status n).id;
  state = state_string (status n).state;
  term = (status n).term;
  leader_id = (status n).leader_id;
  commit_index = (status n).commit_index;
  last_applied = (status n).last_applied;
  reachable = true;
}

abbrev pub down : Bytes → NodeView
down id = record {
  id = id;
  state = down_name;
  term = 0;
  leader_id = [];
  commit_index = 0;
  last_applied = 0;
  reachable = false;
}

unfoldable pub fetch_node_status :
    (Bytes → Delivery) → (Bytes → Option Node) → Bytes → Bytes → NodeView
fetch_node_status net servers id address = elim (servers address) [
  | none ↦ down id
  | some n ↦ elim (net address) [
    | lost ↦ down id
    | unanswered ↦ down id
    | returned ↦ handle_status n
  ]
]

-- `sort.Slice` by the ID.
abbrev pub insert_view : NodeView → List NodeView → List NodeView
insert_view v [] = v ∷ []
insert_view v (w ∷ ws) =
    let rest = insert_view v ws in if str_lt w.id v.id then w ∷ rest else v ∷ w ∷ ws

-- The peers' views.
abbrev pub view_of :
    (Bytes → Delivery) → (Bytes → Option Node) → Node → List (Bytes × Bytes) → Bytes → NodeView
view_of net servers n http_peers id = elim (http_address id http_peers) [
  | none ↦ down id
  | some address ↦
      if str_eq id (status n).id then handle_status n else fetch_node_status net servers id address
]

abbrev pub views :
    (Bytes → Delivery)
    → (Bytes → Option Node)
    → Node
    → List (Bytes × Bytes)
    → List Bytes
    → List NodeView
views net servers n http_peers [] = []
views net servers n http_peers (id ∷ ids) =
    insert_view (view_of net servers n http_peers id) (views net servers n http_peers ids)

-- The loop over the views, from what it has found before.
abbrev pub led_by : Bytes → List NodeView → Bytes
led_by found_id [] = found_id
led_by found_id (v ∷ vs) = led_by (if str_eq v.state leader_name then v.id else found_id) vs

abbrev pub highest_term : ℕ → List NodeView → ℕ
highest_term found_term [] = found_term
highest_term found_term (v ∷ vs) =
    highest_term (if ltb found_term v.term then v.term else found_term) vs

abbrev pub summary : List NodeView → ClusterView
summary nodes = record { nodes = nodes; leader_id = led_by [] nodes; term = highest_term 0 nodes }

unfoldable pub fetch_cluster_snapshot :
    (Bytes → Delivery) → (Bytes → Option Node) → Node → List (Bytes × Bytes) → ClusterView
fetch_cluster_snapshot net servers n http_peers =
    summary (views net servers n http_peers (sort_strings (ids_of http_peers)))

pub data Event : Type 0 where
  status_event : ClusterView → Event
  leader_change : (from to : Bytes) → Event
  term_change : (from to : ℕ) → Event
  node_down node_up : (id : Bytes) → Event

-- The map of the earlier nodes: of two with one ID it has the later.
abbrev pub or_else : Option NodeView → Option NodeView → Option NodeView
or_else none v = v
or_else (some w) v = some w

abbrev pub earlier : Bytes → List NodeView → Option NodeView
earlier id [] = none
earlier id (v ∷ vs) = or_else (earlier id vs) (if str_eq v.id id then some v else none)

abbrev pub changed : Bytes → Option NodeView → Bool → List Event
changed id none now = []
changed id (some p) now =
    (if p.reachable && not now then node_down id ∷ [] else [])
    ++ (if not p.reachable && now then node_up id ∷ [] else [])

unfoldable pub node_events : List NodeView → List NodeView → List Event
node_events prev [] = []
node_events prev (n ∷ ns) = changed n.id (earlier n.id prev) n.reachable ++ node_events prev ns

-- One tick.
unfoldable pub tick_events : ClusterView → ClusterView → List Event
tick_events prev curr =
    status_event curr
    ∷ ((if not (str_eq curr.leader_id prev.leader_id) && not (str_eq curr.leader_id [])
          then leader_change prev.leader_id curr.leader_id ∷ []
          else [])
        ++ ((if ltb prev.term curr.term then term_change prev.term curr.term ∷ [] else [])
            ++ node_events prev.nodes curr.nodes))

abbrev pub ticks : ClusterView → List ClusterView → List Event
ticks prev [] = []
ticks prev (curr ∷ later) = tick_events prev curr ++ ticks curr later

-- The stream over the snapshots that it takes.
unfoldable pub handle_events : ClusterView → List ClusterView → List Event
handle_events first later = status_event first ∷ ticks first later
