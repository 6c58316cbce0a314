-- ===== src/ConfigApi.antt =====
-- server/config.go: the timings over HTTP, at one node and at all. JSON is the library's: a body
-- stands for what its decoder makes of it, `none` for an error. The `int`s of a body are 64 bits of
-- two's complement. A handler's call of the node is one step.
pub mod Timings
pub mod Positive
pub mod Posted
pub mod Told
mod Tests
use raftly.Common.{
  ℕ, ◌*◌, ◌/◌, ◌%◌, ◌^◌, List, [], ◌∷◌, Option, none, some, Bool, true, false, Bytes, ltb, str_eq,
  if◌then◌else◌, is_positive, u64,
}
use raftly.Config.{millisecond}
use raftly.Node.{Node}
use raftly.Lifecycle.{update_timings}
use raftly.Http.{
  Reply, accepted, refused, Delivery, Nodes, http_address, sort_strings, ids_of, call,
}

pub record ConfigApi : Type 0 where
  pub node_id : Bytes
  pub node : Node
  pub http_peers : List (Bytes × Bytes)

unfoldable pub new_config_api : Bytes → Node → List (Bytes × Bytes) → ConfigApi
new_config_api node_id node http_peers = record {
  node_id = node_id;
  node = node;
  http_peers = http_peers;
}

-- `GetTimings`
unfoldable pub get_timings : Node → ℕ × ℕ
get_timings n = (n.config.election_timeout, n.config.heartbeat_interval)

pub record TimingsBody : Type 0 where
  pub election_timeout_ms : ℕ
  pub heartbeat_ms : ℕ

-- `time.Duration(ms) * time.Millisecond`, which wraps around.
unfoldable pub duration : ℕ → ℕ
duration ms = u64 (ms * millisecond)

-- `Milliseconds`
abbrev pub milliseconds : ℕ → ℕ
milliseconds d = d / millisecond

pub record TimingsView : Type 0 where
  pub node : Bytes
  pub election_timeout_ms : ℕ
  pub heartbeat_ms : ℕ

abbrev pub view_of : Bytes → ℕ × ℕ → TimingsView
view_of id (et, hb) = record {
  node = id;
  election_timeout_ms = milliseconds et;
  heartbeat_ms = milliseconds hb;
}

-- `UpdateTimings` with the durations of a body.
unfoldable pub set_timings : TimingsBody → Node → Node
set_timings body n =
    update_timings (duration body.election_timeout_ms) (duration body.heartbeat_ms) n

pub data Method : Type 0 where
  http_get http_post http_other : Method

unfoldable pub handle_node_config :
    Method → Option TimingsBody → ConfigApi → ConfigApi × Reply TimingsView
handle_node_config http_get body c = (c, accepted (view_of c.node_id (get_timings c.node)))
handle_node_config http_post none c = (c, refused 400)
handle_node_config http_post (some body) c =
    let n = set_timings body c.node in
    (record c { node = n }, accepted (view_of c.node_id (get_timings n)))
handle_node_config http_other body c = (c, refused 405)

unfoldable pub config_peer_ids : ConfigApi → List Bytes
config_peer_ids c = sort_strings (ids_of c.http_peers)

-- One goroutine of `fanOutGet`, and one of `fanOutPost`; `none` is an error.
unfoldable pub ask_peer :
    Method
    → Option TimingsBody
    → (Bytes → Delivery)
    → Bytes
    → Nodes ConfigApi
    → Nodes ConfigApi × Option TimingsView
ask_peer method body net id s = elim (http_address id s.api.http_peers) [
  | none ↦ (s, none)
  | some address ↦
      let (s', answer) = call net address (handle_node_config method body) s in
      (s', elim answer [ none ↦ none | some v ↦ some (record v { node = id }) ])
]

unfoldable pub get_at :
    (Bytes → Delivery) → Bytes → Nodes ConfigApi → Nodes ConfigApi × Option TimingsView
get_at net id s =
    if str_eq id s.api.node_id
    then (s, some (view_of id (get_timings s.api.node)))
    else ask_peer http_get none net id s

unfoldable pub post_at :
    (Bytes → Delivery)
    → TimingsBody
    → Bytes
    → Nodes ConfigApi
    → Nodes ConfigApi × Option TimingsView
post_at net body id s =
    let n = set_timings body s.api.node in
    if str_eq id s.api.node_id
    then (record s { api = record s.api { node = n } }, some (view_of id (get_timings n)))
    else ask_peer http_post (some body) net id s

-- A call at each of the peers, and the results in their order.
abbrev pub each :
    (Bytes → Nodes ConfigApi → Nodes ConfigApi × Option TimingsView)
    → List Bytes
    → Nodes ConfigApi
    → Nodes ConfigApi × List (Bytes × Option TimingsView)
each f [] s = (s, [])
each f (id ∷ ids) s = let (s1, r) = f id s in let (s2, rs) = each f ids s1 in (s2, (id, r) ∷ rs)

unfoldable pub fan_out_get :
    (Bytes → Delivery) → Nodes ConfigApi → Nodes ConfigApi × List (Bytes × Option TimingsView)
fan_out_get net s = each (get_at net) (config_peer_ids s.api) s

unfoldable pub fan_out_post :
    (Bytes → Delivery)
    → TimingsBody
    → Nodes ConfigApi
    → Nodes ConfigApi × List (Bytes × Option TimingsView)
fan_out_post net body s = each (post_at net body) (config_peer_ids s.api) s

unfoldable pub handle_cluster_config :
    Method
    → Option TimingsBody
    → (Bytes → Delivery)
    → Nodes ConfigApi
    → Nodes ConfigApi × Reply (List (Bytes × Option TimingsView))
handle_cluster_config http_get body net s = let (s', rs) = fan_out_get net s in (s', accepted rs)
handle_cluster_config http_post none net s = (s, refused 400)
handle_cluster_config http_post (some body) net s =
    let (s', rs) = fan_out_post net body s in (s', accepted rs)
handle_cluster_config http_other body net s = (s, refused 405)
