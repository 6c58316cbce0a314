-- ===== src/ChaosApi/Tests.antt =====
-- server/chaos.go: faults around a node of a cluster of two.
use raftly.Common.{
  ◌⊎◌, ap, get_or, ◌+◌, ◌*◌, ◌≡◌, ◌≢◌, refl, sym, [], ◌∷◌, some, true, false, Bytes, str_eq,
  str_eq_iff, Bool-cases, inl, inr, arith,
}
use raftly.Config.{millisecond}
use raftly.Proxy.{Roll, jitter_of}
use raftly.Proxy.Rules.{Silent}
use raftly.Sample.{n1, n2}
use raftly.Proxy.{new_network_proxy}
use raftly.Http.{Delivery, lost, returned, Nodes, http_address}
use raftly.ChaosApi.{ChaosApi, new_chaos_api}
use raftly.ChaosApi.Fanout.{DelayBody, handle_isolate, handle_delay}
use raftly.ChaosApi.Plans.{rules_at, decided, Reached, remote}
use raftly.ChaosApi.Healed.{cluster_heal_delivers}
use raftly.Proxy.{ProxyRule, action_drop}
use raftly.Chaos.{no_params}
use raftly.ChaosApi.Fanout.{handle_cluster_heal}
use raftly.ChaosApi.Faults.{isolate_cuts_off}
use raftly.ChaosApi.Delay.{delay_params, delay_in_process_alone}

-- ":1" and ":2"
abbrev a1 : Bytes
a1 = 58 ∷ 49 ∷ []

abbrev a2 : Bytes
a2 = 58 ∷ 50 ∷ []

abbrev first : ChaosApi
first = record {
  node_id = n1;
  proxy = record { rules = [] };
  http_peers = (n1, a1) ∷ (n2, a2) ∷ [];
  counter = 0;
}

first_is_new : first ≡ new_chaos_api n1 new_network_proxy ((n1, a1) ∷ (n2, a2) ∷ [])
unfolding new_chaos_api new_network_proxy
first_is_new = refl

abbrev second : ChaosApi
second = record first { node_id = n2 }

abbrev nodes : Nodes ChaosApi
nodes = record { api = first; servers = λ a. some second }

abbrev net : Bytes → Delivery
net a = returned

n2_alone : (k : Bytes) → http_address k first.http_peers ≡ some a2 → k ≡ n2
unfolding str_eq
n2_alone k h = elim (Bool-cases (str_eq n1 k)) [
  | inl one ↦ absurd (let q : false ≡ true = ap (λ t. str_eq (get_or t []) a2) (rw one at h) in cc)
  | inr not_one ↦ elim (Bool-cases (str_eq n2 k)) [
    | inl two ↦ sym ((str_eq_iff n2 k).0 two)
    | inr neither ↦ absurd (let q = rw (not_one, neither) at h in cc)
  ]
]

returned-ne-lost : returned ≢ lost
returned-ne-lost h = cc

n2-Reached : Reached net nodes n2
unfolding str_eq
n2-Reached = remote a2 second refl refl refl returned-ne-lost n2_alone

n2_is_named : n2 ≢ []
n2_is_named h = cc

abbrev cut : ProxyRule
cut = record {
  id = 49 ∷ [];
  from_node = [];
  to_node = [];
  action = action_drop;
  params = no_params;
}

abbrev roll : Roll
roll = record { jitter = 0; loss = 5 }

isolate_cuts_off_example :
    ((n2 ≡ n2) ⊎ (n1 ≡ n2)
      → Silent (rules_at n2 nodes) n2 n1
      → decided roll (handle_isolate net (some n2) nodes).0 n2 n1 ≡ (false, 0))
    × (n2 ≢ n2
        → n1 ≢ n2
        → decided roll (handle_isolate net (some n2) nodes).0 n2 n1 ≡ decided roll nodes n2 n1)
isolate_cuts_off_example = isolate_cuts_off net nodes n2 roll n2 n1 n2_is_named n2-Reached

abbrev body : DelayBody
body = record { node = n2; delay_ms = 100; jitter_ms = 0 }

n2_has_no_rules : Silent (rules_at n2 nodes) n2 n1
unfolding str_eq
n2_has_no_rules = tt

delay_in_process_alone_example :
    (n2 ≡ n1
      → decided roll (handle_delay net (some body) nodes).0 n2 n1
        ≡ (true, (100 + jitter_of roll (delay_params body)) * millisecond))
    × (n2 ≢ n1 → decided roll (handle_delay net (some body) nodes).0 n2 n1 ≡ (true, 0))
delay_in_process_alone_example =
    delay_in_process_alone net nodes body roll n2 n1 n2_is_named (omega arith) (omega arith)
      n2-Reached (inl refl) n2_has_no_rules

-- n2 drops all that it sends, and is healed.
abbrev cut_off : Nodes ChaosApi
cut_off = record nodes {
  servers = λ a. some (record second { proxy = record { rules = cut ∷ [] } });
}

cut_off-Reached : Reached net cut_off n2
unfolding str_eq
cut_off-Reached =
    remote a2 (record second { proxy = record { rules = cut ∷ [] } }) refl refl refl
      returned-ne-lost n2_alone

cluster_heal_delivers_example : decided roll (handle_cluster_heal net cut_off).0 n2 n1 ≡ (true, 0)
cluster_heal_delivers_example = cluster_heal_delivers net cut_off roll n2 n1 cut_off-Reached
