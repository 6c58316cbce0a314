-- ===== src/ConfigApi/Told.antt =====
-- server/config.go: a request for timings that goes to all nodes, and what the nodes answer after
-- it.
use raftly.Common.{◌≡◌, ◌≢◌, sym, ◌∙◌, ap, some, true, false, Bytes, str_eq, str_eq_iff, inl}
use raftly.Http.{Delivery, lost, returned, Nodes, http_address, ids_of}
use raftly.Http.Calls.{is_listed, is_listed-sort_strings, is_listed-ids_of}
use raftly.ConfigApi.{
  ConfigApi, TimingsBody, http_post, handle_node_config, config_peer_ids, ask_peer, get_at, post_at,
  each, fan_out_post, handle_cluster_config,
}
use raftly.ConfigApi.Timings.{IsMillis}
use raftly.ConfigApi.Posted.{each_own, each_peer, each_keeps, posted_view}

-- The node is the one that handles the request, or it alone has its address, serves there, and its
-- responses return.
pub data Answers (net : Bytes → Delivery) (s : Nodes ConfigApi) (p : Bytes) : Type 0 where
  itself :
      (a : Bytes) → http_address p s.api.http_peers ≡ some a → p ≡ s.api.node_id → Answers net s p
  remote :
      (a : Bytes) (api : ConfigApi)
      → http_address p s.api.http_peers ≡ some a
      → str_eq p s.api.node_id ≡ false
      → s.servers a ≡ some api
      → net a ≡ returned
      → ((k : Bytes) → http_address k s.api.http_peers ≡ some a → k ≡ p)
      → Answers net s p

listed :
    (p a : Bytes) (c : ConfigApi)
    → http_address p c.http_peers ≡ some a
    → is_listed p (config_peer_ids c) ≡ true
unfolding config_peer_ids
listed p a c h =
    is_listed-sort_strings p (ids_of c.http_peers) ∙ is_listed-ids_of p a c.http_peers h

-- Timings in milliseconds are posted for the cluster, positive and with nanoseconds that fit a
-- duration. Then a node that answers, the one that handles the request or another, has them
-- afterwards: asked for its timings it answers the two numbers that were posted. Whether other nodes
-- are reached makes no difference.
pub config_read_back :
    (net : Bytes → Delivery) (body : TimingsBody) (s : Nodes ConfigApi) (p : Bytes)
    → IsMillis body.election_timeout_ms
    → IsMillis body.heartbeat_ms
    → Answers net s p
    → (get_at net p (handle_cluster_config http_post (some body) net s).0).1
      ≡ some (record {
        node = p;
        election_timeout_ms = body.election_timeout_ms;
        heartbeat_ms = body.heartbeat_ms;
      })
unfolding handle_cluster_config fan_out_post get_at ask_peer handle_node_config
config_read_back net body s p et hb (itself a known own) =
    let after = (each (post_at net body) (config_peer_ids s.api) s).0 in
    let told =
      each_own net body et hb p (config_peer_ids s.api) s own (inl (listed p a s.api known)) in
    let here : str_eq p after.api.node_id ≡ true =
      (str_eq_iff p after.api.node_id).1
        (own ∙ sym (each_keeps net body et hb (config_peer_ids s.api) s).0) in
    rw (get_at, here) (ap some (posted_view net body et hb p after.api.node told))
config_read_back net body s p et hb (remote a api known other serves answers only) =
    let after = (each (post_at net body) (config_peer_ids s.api) s).0 in
    let arrives : net a ≢ lost = λ h. let q = sym answers ∙ h in cc in
    let told =
      each_peer net body et hb p a arrives (config_peer_ids s.api) s other known only (api, serves)
        (inl (listed p a s.api known)) in
    let (same_id, same_peers) = each_keeps net body et hb (config_peer_ids s.api) s in
    let there : str_eq p after.api.node_id ≡ false = ap (str_eq p) same_id ∙ other in
    let known1 : http_address p after.api.http_peers ≡ some a =
      ap (http_address p) same_peers ∙ known in
    rw (get_at, there, ask_peer, known1, told.1, answers)
      (ap some (posted_view net body et hb p told.0.node told.2))
