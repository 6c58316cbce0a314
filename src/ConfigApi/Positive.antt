-- ===== src/ConfigApi/Positive.antt =====
-- server/config.go over raft/node.go: which timings the requests can leave at the nodes.
use mathlib.Core.Path.{subst}
use raftly.Common.{
  ◌≡◌, refl, sym, List, [], ◌∷◌, Option, none, some, Bytes, str_eq, Bool-cases, Option-cases, inl,
  inr, arith,
}
use raftly.Node.{Node}
use raftly.Lifecycle.{update_timings}
use raftly.Http.{Delivery, Nodes, set_server, http_address, call}
use raftly.Http.Calls.{call_effects}
use raftly.ConfigApi.{
  ConfigApi, TimingsBody, TimingsView, set_timings, Method, http_get, http_post, http_other,
  handle_node_config, ask_peer, get_at, post_at, each, fan_out_get, fan_out_post, config_peer_ids,
  handle_cluster_config,
}
use raftly.ConfigApi.Timings.{IsPositive}

-- Timings that are positive and in the range of a duration, at a node and at all of them.
abbrev pub IsTimed : Node → Type 0
IsTimed n = IsPositive n.config.election_timeout × IsPositive n.config.heartbeat_interval

abbrev pub AllTimed : Nodes ConfigApi → Type 0
AllTimed s =
    IsTimed s.api.node × ((a : Bytes) (api : ConfigApi) → s.servers a ≡ some api → IsTimed api.node)

set_timings-IsTimed : (body : TimingsBody) (n : Node) → IsTimed n → IsTimed (set_timings body n)
unfolding set_timings update_timings
set_timings-IsTimed body n timed = ground arith

handle_node_config-IsTimed :
    (method : Method) (body : Option TimingsBody) (c : ConfigApi)
    → IsTimed c.node
    → IsTimed (handle_node_config method body c).0.node
unfolding handle_node_config
handle_node_config-IsTimed http_get body c timed = timed
handle_node_config-IsTimed http_post none c timed = timed
handle_node_config-IsTimed http_post (some body) c timed = set_timings-IsTimed body c.node timed
handle_node_config-IsTimed http_other body c timed = timed

module _ (net : Bytes → Delivery) where
  served-AllTimed :
      (a : Bytes) (method : Method) (body : Option TimingsBody) (s : Nodes ConfigApi)
      (server : ConfigApi)
      → AllTimed s
      → s.servers a ≡ some server
      → AllTimed
          (record s { servers = set_server a (handle_node_config method body server).0 s.servers })
  served-AllTimed a method body s server timed serves = (
    timed.0,
    λ b api found. elim (Bool-cases (str_eq a b)) [
      | inl here ↦
          let after : (handle_node_config method body server).0 ≡ api =
            (let q = rw here at found in cc) in
          subst (λ (c : ConfigApi). IsTimed c.node) after
            (handle_node_config-IsTimed method body server (timed.1 a server serves))
      | inr other ↦ timed.1 b api (rw other at found)
    ],
  )

  ask_peer-AllTimed :
      (method : Method) (body : Option TimingsBody) (id : Bytes) (s : Nodes ConfigApi)
      → AllTimed s
      → AllTimed (ask_peer method body net id s).0
  unfolding ask_peer
  ask_peer-AllTimed method body id s timed =
      elim (Option-cases (http_address id s.api.http_peers)) [
        | inl unknown ↦ rw (ask_peer, unknown) timed
        | inr (a, known) ↦
            let asked : (ask_peer method body net id s).0
                ≡ (call net a (handle_node_config method body) s).0 =
              rw (ask_peer, known) refl in
            subst AllTimed (sym asked)
              (elim (call_effects net a (handle_node_config method body) s) [
                | inl same ↦ subst AllTimed (sym same) timed
                | inr (server, serves, after) ↦
                    subst AllTimed (sym after) (served-AllTimed a method body s server timed serves)
              ])
      ]

  get_at-AllTimed : (id : Bytes) (s : Nodes ConfigApi) → AllTimed s → AllTimed (get_at net id s).0
  unfolding get_at
  get_at-AllTimed id s timed = elim (Bool-cases (str_eq id s.api.node_id)) [
    | inl own ↦ rw (get_at, own) timed
    | inr other ↦ rw (get_at, other) (ask_peer-AllTimed http_get none id s timed)
  ]

  post_at-AllTimed :
      (body : TimingsBody) (id : Bytes) (s : Nodes ConfigApi)
      → AllTimed s
      → AllTimed (post_at net body id s).0
  unfolding post_at
  post_at-AllTimed body id s timed = elim (Bool-cases (str_eq id s.api.node_id)) [
    | inl own ↦ rw (post_at, own) (set_timings-IsTimed body s.api.node timed.0, timed.1)
    | inr other ↦ rw (post_at, other) (ask_peer-AllTimed http_post (some body) id s timed)
  ]

  each-AllTimed :
      (f : Bytes → Nodes ConfigApi → Nodes ConfigApi × Option TimingsView)
      → ((id : Bytes) (s : Nodes ConfigApi) → AllTimed s → AllTimed (f id s).0)
      → (ids : List Bytes) (s : Nodes ConfigApi) → AllTimed s
      → AllTimed (each f ids s).0
  each-AllTimed f keeps [] s timed = timed
  each-AllTimed f keeps (id ∷ ids) s timed = each-AllTimed f keeps ids (f id s).0 (keeps id s timed)

  handle_cluster_config-AllTimed :
      (method : Method) (body : Option TimingsBody) (s : Nodes ConfigApi)
      → AllTimed s
      → AllTimed (handle_cluster_config method body net s).0
  unfolding handle_cluster_config fan_out_get fan_out_post
  handle_cluster_config-AllTimed http_get body s timed =
      each-AllTimed (get_at net) get_at-AllTimed (config_peer_ids s.api) s timed
  handle_cluster_config-AllTimed http_post none s timed = timed
  handle_cluster_config-AllTimed http_post (some body) s timed =
      each-AllTimed (post_at net body) (post_at-AllTimed body) (config_peer_ids s.api) s timed
  handle_cluster_config-AllTimed http_other body s timed = timed

-- A request to one node, or one that a node takes to all of them over calls that may be lost,
-- whatever it asks for, negative numbers and those whose nanoseconds overflow included: timings that
-- are positive and in the range of a duration stay so, at the node and at every server.
pub requests-AllTimed :
    (net : Bytes → Delivery) (method : Method) (body : Option TimingsBody) (c : ConfigApi)
    (s : Nodes ConfigApi)
    → IsTimed c.node
    → AllTimed s
    → IsTimed (handle_node_config method body c).0.node
      × AllTimed (handle_cluster_config method body net s).0
requests-AllTimed net method body c s one all = (
  handle_node_config-IsTimed method body c one,
  handle_cluster_config-AllTimed net method body s all,
)
