-- ===== src/ChaosApi/Fanout.antt =====
-- server/chaos.go: one request that reaches every node. A plan's rules go to the nodes in some
-- order; the nodes have one proxy each, so that the order of the plan stands for any other.
use raftly.Common.{
  ℕ, ◌^◌, List, [], ◌∷◌, ◌++◌, map, Option, none, some, Bool, true, false, not, ◌||◌, Bytes, ltb,
  str_eq, if◌then◌else◌, is_positive,
}
use raftly.Proxy.{Params, clear_rules}
use raftly.Chaos.{no_params}
use raftly.Http.{
  Reply, accepted, refused, Delivery, lost, unanswered, returned, Nodes, http_address, str_lt,
  sort_strings, ids_of, call,
}
use raftly.ChaosApi.{
  ChaosApi, RuleSpec, json_spec, drop, delay, loss, apply_local, handle_apply_local,
  handle_heal_local, RuleResponse, to_rule_responses, handle_rules,
}

unfoldable pub peer_ids : ChaosApi → List Bytes
peer_ids c = sort_strings (ids_of c.http_peers)

unfoldable pub dispatch_rules :
    (Bytes → Delivery)
    → Bytes
    → List RuleSpec
    → Nodes ChaosApi
    → Nodes ChaosApi × Option (List Bytes)
dispatch_rules net peer rules s = elim (http_address peer s.api.http_peers) [
  | none ↦ (s, none)
  | some address ↦ call net address (handle_apply_local true (some (map json_spec rules))) s
]

-- A map from nodes to rules.
abbrev pub Plan : Type 0
Plan = List (Bytes × List RuleSpec)

abbrev pub without_node : Bytes → Plan → Plan
without_node id [] = []
without_node id (p ∷ ps) = let rest = without_node id ps in if str_eq p.0 id then rest else p ∷ rest

abbrev pub set_rules : Bytes → List RuleSpec → Plan → Plan
set_rules id rules plan = (id, rules) ∷ without_node id plan

-- What one goroutine of `executePlan` does.
unfoldable pub install :
    (Bytes → Delivery)
    → Bytes
    → List RuleSpec
    → Nodes ChaosApi
    → Nodes ChaosApi × Option (List Bytes)
install net id rules s =
    let (api, ids) = apply_local rules s.api in
    if str_eq id s.api.node_id
    then (record s { api = api }, some ids)
    else dispatch_rules net id rules s

-- The nodes after a plan, and a result for each of its nodes.
abbrev pub Results : Type 0
Results = List (Bytes × Option (List Bytes))

abbrev pub insert_result : Bytes × Option (List Bytes) → Results → Results
insert_result r [] = r ∷ []
insert_result r (q ∷ qs) =
    let rest = insert_result r qs in if str_lt q.0 r.0 then q ∷ rest else r ∷ q ∷ qs

unfoldable pub execute_plan : (Bytes → Delivery) → Plan → Nodes ChaosApi → Nodes ChaosApi × Results
execute_plan net [] s = (s, [])
execute_plan net (p ∷ ps) s =
    let (s1, result) = install net p.0 p.1 s in
    let (s2, results) = execute_plan net ps s1 in (s2, insert_result (p.0, result) results)

-- A rule for the messages of the node that has it: all of them, or those to one node.
abbrev pub outbound : Bytes → Bytes → Bytes → Params → RuleSpec
outbound id to action params = record {
  id = id;
  from_node = [];
  to_node = to;
  action = action;
  params = params;
}

-- "isolate-", "part-", "delay-", "loss-", "-out", "-in-from-", "-to-from-"
abbrev pub isolate_prefix : Bytes
isolate_prefix = 105 ∷ 115 ∷ 111 ∷ 108 ∷ 97 ∷ 116 ∷ 101 ∷ 45 ∷ []

abbrev pub part_prefix : Bytes
part_prefix = 112 ∷ 97 ∷ 114 ∷ 116 ∷ 45 ∷ []

abbrev pub delay_prefix : Bytes
delay_prefix = 100 ∷ 101 ∷ 108 ∷ 97 ∷ 121 ∷ 45 ∷ []

abbrev pub loss_prefix : Bytes
loss_prefix = 108 ∷ 111 ∷ 115 ∷ 115 ∷ 45 ∷ []

abbrev pub out_suffix : Bytes
out_suffix = 45 ∷ 111 ∷ 117 ∷ 116 ∷ []

abbrev pub in_from : Bytes
in_from = 45 ∷ 105 ∷ 110 ∷ 45 ∷ 102 ∷ 114 ∷ 111 ∷ 109 ∷ 45 ∷ []

abbrev pub to_from : Bytes
to_from = 45 ∷ 116 ∷ 111 ∷ 45 ∷ 102 ∷ 114 ∷ 111 ∷ 109 ∷ 45 ∷ []

-- The rules of the nodes other than the target, for its inbound messages.
abbrev pub plan_others : Bytes → Bytes → Bytes → Bytes → Params → List Bytes → Plan → Plan
plan_others target prefix middle action params [] plan = plan
plan_others target prefix middle action params (id ∷ ids) plan =
    plan_others target prefix middle action params ids (
      if str_eq id target
      then plan
      else set_rules id (outbound (prefix ++ (target ++ (middle ++ id))) target action params ∷ [])
          plan)

-- Both directions of one node: its own outbound rule, and the others'.
unfoldable pub around : Bytes → Bytes → Bytes → Bytes → Params → List Bytes → Plan
around target prefix middle action params ids =
    plan_others target prefix middle action params ids
      (set_rules target (outbound (prefix ++ (target ++ out_suffix)) [] action params ∷ []) [])

unfoldable pub handle_isolate :
    (Bytes → Delivery) → Option Bytes → Nodes ChaosApi → Nodes ChaosApi × Reply Results
handle_isolate net none s = (s, refused 400)
handle_isolate net (some target) s =
    let plan = around target isolate_prefix in_from drop no_params (peer_ids s.api) in
    let (s', results) = execute_plan net plan s in
    if str_eq target [] then (s, refused 400) else (s', accepted results)

unfoldable pub handle_partition :
    (Bytes → Delivery) → Option (Bytes × Bytes) → Nodes ChaosApi → Nodes ChaosApi × Reply Results
handle_partition net none s = (s, refused 400)
handle_partition net (some (a, b)) s =
    let plan =
      set_rules b (outbound (part_prefix ++ (b ++ (45 ∷ a))) a drop no_params ∷ [])
        (set_rules a (outbound (part_prefix ++ (a ++ (45 ∷ b))) b drop no_params ∷ []) []) in
    let (s', results) = execute_plan net plan s in
    if str_eq a [] || str_eq b [] then (s, refused 400) else (s', accepted results)

pub record DelayBody : Type 0 where
  pub node : Bytes
  pub delay_ms : ℕ
  pub jitter_ms : ℕ

unfoldable pub handle_delay :
    (Bytes → Delivery) → Option DelayBody → Nodes ChaosApi → Nodes ChaosApi × Reply Results
handle_delay net none s = (s, refused 400)
handle_delay net (some body) s =
    let params = record no_params {
      delay_ms = some body.delay_ms;
      jitter_ms = some body.jitter_ms;
    } in
    let plan = around body.node delay_prefix to_from delay params (peer_ids s.api) in
    let (s', results) = execute_plan net plan s in
    if str_eq body.node [] || not (is_positive body.delay_ms)
    then (s, refused 400)
    else (s', accepted results)

-- The rate in steps of 2^-53.
unfoldable pub handle_loss :
    (Bytes → Delivery) → Option (Bytes × ℕ) → Nodes ChaosApi → Nodes ChaosApi × Reply Results
handle_loss net none s = (s, refused 400)
handle_loss net (some (target, rate)) s =
    let params = record no_params { loss_rate = some rate } in
    let plan = around target loss_prefix to_from loss params (peer_ids s.api) in
    let (s', results) = execute_plan net plan s in
    if str_eq target [] || not (ltb 0 rate) || ltb (2 ^ 53) rate
    then (s, refused 400)
    else (s', accepted results)

-- False is an error.
unfoldable pub heal_peer : (Bytes → Delivery) → Bytes → Nodes ChaosApi → Nodes ChaosApi × Bool
heal_peer net peer s =
    if str_eq peer s.api.node_id
    then (record s { api = record s.api { proxy = clear_rules s.api.proxy } }, true)
    else elim (http_address peer s.api.http_peers) [
      | none ↦ (s, false)
      | some address ↦
          let (s', healed) = call net address (handle_heal_local true) s in
          (s', elim healed [ none ↦ false | some id ↦ true ])
    ]

abbrev pub heal_all :
    (Bytes → Delivery) → List Bytes → Nodes ChaosApi → Nodes ChaosApi × List (Bytes × Bool)
heal_all net [] s = (s, [])
heal_all net (id ∷ ids) s =
    let (s1, ok) = heal_peer net id s in let (s2, oks) = heal_all net ids s1 in (s2, (id, ok) ∷ oks)

unfoldable pub handle_cluster_heal :
    (Bytes → Delivery) → Nodes ChaosApi → Nodes ChaosApi × List (Bytes × Bool)
handle_cluster_heal net s = heal_all net (peer_ids s.api) s

unfoldable pub fetch_peer_rules :
    (Bytes → Delivery) → Nodes ChaosApi → Bytes → Option (List RuleResponse)
fetch_peer_rules net s peer =
    if str_eq peer s.api.node_id
    then some (to_rule_responses s.api.proxy.rules)
    else elim (http_address peer s.api.http_peers) [
      | none ↦ none
      | some address ↦ elim (s.servers address) [
        | none ↦ none
        | some server ↦ elim (net address) [
          | lost ↦ none
          | unanswered ↦ none
          | returned ↦ some (handle_rules server)
        ]
      ]
    ]

unfoldable pub handle_cluster_state :
    (Bytes → Delivery) → Nodes ChaosApi → List (Bytes × Option (List RuleResponse))
handle_cluster_state net s = map (λ id. (id, fetch_peer_rules net s id)) (peer_ids s.api)
