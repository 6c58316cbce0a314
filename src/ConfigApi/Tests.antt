-- ===== src/ConfigApi/Tests.antt =====
-- server/config.go: timings at two nodes.
use mathlib.Core.Path.{subst}
use raftly.Common.{
  ◌^◌, ◌-◌, ◌≡◌, refl, sym, ap, get_or, [], ◌∷◌, some, true, false, Bytes, str_eq, str_eq_iff,
  Bool-cases, inl, inr, arith,
}
use raftly.Sample.{n1, n2, node}
use raftly.Http.{Delivery, returned, Nodes, http_address}
use raftly.ConfigApi.{
  ConfigApi, new_config_api, TimingsBody, http_post, handle_node_config, get_at,
  handle_cluster_config,
}
use raftly.ConfigApi.Positive.{IsTimed, AllTimed, requests-AllTimed}
use raftly.ConfigApi.Told.{Answers, remote, config_read_back}

-- ":1" and ":2"
abbrev a1 : Bytes
a1 = 58 ∷ 49 ∷ []

abbrev a2 : Bytes
a2 = 58 ∷ 50 ∷ []

abbrev first : ConfigApi
first = record { node_id = n1; node = node; http_peers = (n1, a1) ∷ (n2, a2) ∷ [] }

first_is_new : first ≡ new_config_api n1 node ((n1, a1) ∷ (n2, a2) ∷ [])
unfolding new_config_api
first_is_new = refl

-- A negative timeout, and a heartbeat whose nanoseconds overflow.
abbrev hostile : TimingsBody
hostile = record { election_timeout_ms = 2 ^ 64 - 5; heartbeat_ms = 2 ^ 62 }

abbrev nodes : Nodes ConfigApi
nodes = record { api = first; servers = λ a. some (record first { node_id = n2 }) }

abbrev net : Bytes → Delivery
net a = returned

abbrev body : TimingsBody
body = record { election_timeout_ms = 300; heartbeat_ms = 100 }

n2_alone : (k : Bytes) → http_address k first.http_peers ≡ some a2 → k ≡ n2
unfolding str_eq
n2_alone k h = elim (Bool-cases (str_eq n1 k)) [
  | inl one ↦ absurd (let q : false ≡ true = ap (λ t. str_eq (get_or t []) a2) (rw one at h) in cc)
  | inr not_one ↦ elim (Bool-cases (str_eq n2 k)) [
    | inl two ↦ sym ((str_eq_iff n2 k).0 two)
    | inr neither ↦ absurd (let q = rw (not_one, neither) at h in cc)
  ]
]

n2-Answers : Answers net nodes n2
unfolding str_eq
n2-Answers = remote a2 (record first { node_id = n2 }) refl refl refl refl n2_alone

config_read_back_example :
    (get_at net n2 (handle_cluster_config http_post (some body) net nodes).0).1
    ≡ some (record { node = n2; election_timeout_ms = 300; heartbeat_ms = 100 })
config_read_back_example =
    config_read_back net body nodes n2 (omega arith, omega arith) (omega arith, omega arith)
      n2-Answers

nodes-AllTimed : AllTimed nodes
nodes-AllTimed = (
  ((omega arith, omega arith), (omega arith, omega arith)),
  λ a api serves.
      subst (λ t. IsTimed (get_or t first).node) serves
        ((omega arith, omega arith), (omega arith, omega arith)),
)

requests-AllTimed_example :
    IsTimed (handle_node_config http_post (some hostile) first).0.node
    × AllTimed (handle_cluster_config http_post (some hostile) net nodes).0
requests-AllTimed_example =
    requests-AllTimed net http_post (some hostile) first nodes nodes-AllTimed.0 nodes-AllTimed
