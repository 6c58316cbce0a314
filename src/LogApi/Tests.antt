-- ===== src/LogApi/Tests.antt =====
-- server/log.go: logs at two nodes.
use raftly.Common.{
  ◌-◌, ◌≤◌, ◌≡◌, refl, [], ◌∷◌, map, drop, length, min, none, some, Bytes, str_eq, arith,
}
use raftly.Log.{last_index}
use raftly.Node.{Node}
use raftly.Lifecycle.{status}
use raftly.Sample.{n1, n2, node}
use raftly.Http.{Delivery, returned}
use raftly.Kv.{Codec}
use raftly.LogApi.{
  parse_limit, atoi, entry_view, handle_log, LogApi, new_log_api, handle_cluster_log,
}
use raftly.LogApi.Views.{result_of, remote, handle_log_lem, cluster_log_is_local}

abbrev codec : Codec
codec = record {
  marshal = λ cmd. cmd.op;
  unmarshal = λ s. none;
  body_value = λ s. none;
  unread = λ s. [];
}

-- "7", "201" and "-3" with 20 to fall back to.
limits :
    (parse_limit (55 ∷ []) 20 ≡ 7)
    × (parse_limit (50 ∷ 48 ∷ 49 ∷ []) 20 ≡ 20)
    × (parse_limit (45 ∷ 51 ∷ []) 20 ≡ 20)
unfolding parse_limit atoi str_eq
limits = (refl, refl, refl)

handle_log_lem_example :
    ((handle_log codec (49 ∷ []) node).entries
      ≡ map (entry_view codec node) (
          drop
            (length node.log.entries - min (parse_limit (49 ∷ []) 20) (last_index node.log))
            node.log.entries))
    × (length (handle_log codec (49 ∷ []) node).entries
        ≡ min (parse_limit (49 ∷ []) 20) (last_index node.log))
    × (length (handle_log codec (49 ∷ []) node).entries ≤ 200)
handle_log_lem_example = handle_log_lem codec (49 ∷ []) node (omega arith) (omega arith)

abbrev peer : Node
peer = record node { id = n2 }

abbrev net : Bytes → Delivery
net a = returned

abbrev api : LogApi
api = record { node = node; http_peers = (n1, 58 ∷ 49 ∷ []) ∷ (n2, 58 ∷ 50 ∷ []) ∷ [] }

api_is_new : api ≡ new_log_api node ((n1, 58 ∷ 49 ∷ []) ∷ (n2, 58 ∷ 50 ∷ []) ∷ [])
unfolding new_log_api
api_is_new = refl

cluster_log_is_local_example :
    result_of n2 (handle_cluster_log codec (55 ∷ []) net (λ a. some peer) api)
    ≡ some (some (handle_log codec (55 ∷ []) peer))
unfolding str_eq status
cluster_log_is_local_example =
    cluster_log_is_local codec (55 ∷ []) net (λ a. some peer) api n2 peer
      (remote (58 ∷ 50 ∷ []) refl refl refl refl)
