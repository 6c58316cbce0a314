-- ===== src/ChaosApi.antt =====
-- server/chaos.go: faults over HTTP, the part at one node. JSON is the library's: a body stands for
-- what its decoder makes of it, `none` for an error. The `int`s of a body are 64 bits of two's
-- complement; a loss rate is in the proxy's steps, 0 when it is not positive. The lock is left out:
-- a handler is one step.
pub mod Fanout
pub mod Plans
pub mod Reach
pub mod Targets
pub mod Faults
pub mod Delay
pub mod Healed
mod Tests
use raftly.Common.{
  ℕ, suc, ◌+◌, List, [], ◌∷◌, ◌++◌, map, Option, none, some, Bool, true, false, not, Bytes, str_eq,
  if◌then◌else◌,
}
use raftly.Proxy.{
  ProxyAction, action_pass, action_drop, action_delay, action_loss, Params, ProxyRule, NetworkProxy,
  add_rule, clear_rules,
}
use raftly.Chaos.{decimal}
use raftly.Http.{Reply, accepted, refused}

-- The names of the actions.
abbrev pub pass : Bytes
pass = 112 ∷ 97 ∷ 115 ∷ 115 ∷ []

abbrev pub drop : Bytes
drop = 100 ∷ 114 ∷ 111 ∷ 112 ∷ []

abbrev pub delay : Bytes
delay = 100 ∷ 101 ∷ 108 ∷ 97 ∷ 121 ∷ []

abbrev pub loss : Bytes
loss = 108 ∷ 111 ∷ 115 ∷ 115 ∷ []

pub record ChaosApi : Type 0 where
  pub node_id : Bytes
  pub proxy : NetworkProxy
  pub http_peers : List (Bytes × Bytes)
  pub counter : ℕ

unfoldable pub new_chaos_api : Bytes → NetworkProxy → List (Bytes × Bytes) → ChaosApi
new_chaos_api node_id proxy http_peers = record {
  node_id = node_id;
  proxy = proxy;
  http_peers = http_peers;
  counter = 0;
}

pub record RuleSpec : Type 0 where
  pub id : Bytes
  pub from_node : Bytes
  pub to_node : Bytes
  pub action : Bytes
  pub params : Params

-- The numbers that `encoding/json` decodes into an interface are all `float64`, so that the
-- parameters that the proxy reads as an `int` are ill-typed in a rule that came in JSON.
abbrev pub json_params : Params → Params
json_params params = record params { delay_ms = none; jitter_ms = none }

abbrev pub json_spec : RuleSpec → RuleSpec
json_spec spec = record spec { params = json_params spec.params }

unfoldable pub action_from_string : Bytes → ProxyAction
action_from_string s =
    if str_eq s drop
    then action_drop
    else if str_eq s delay
    then action_delay
    else if str_eq s loss
    then action_loss
    else action_pass

abbrev pub action_string : ProxyAction → Bytes
action_string action_pass = pass
action_string action_drop = drop
action_string action_delay = delay
action_string action_loss = loss

-- `"%s-%s-%d"` for a rule without an ID.
unfoldable pub ensure_id : Bytes → Bytes → ChaosApi → ChaosApi × Bytes
ensure_id id action c =
    let n = suc c.counter in
    if not (str_eq id [])
    then (c, id)
    else (record c { counter = n }, c.node_id ++ (45 ∷ action) ++ (45 ∷ decimal (suc n) n))

-- One round of the loop of `applyLocal`.
unfoldable pub apply_spec : RuleSpec → ChaosApi → ChaosApi × Bytes
apply_spec spec c =
    let (c', id) = ensure_id spec.id spec.action c in
    let rule : ProxyRule = record {
      id = id;
      from_node = spec.from_node;
      to_node = spec.to_node;
      action = action_from_string spec.action;
      params = spec.params;
    } in
    (record c' { proxy = add_rule rule c'.proxy }, id)

unfoldable pub apply_local : List RuleSpec → ChaosApi → ChaosApi × List Bytes
apply_local [] c = (c, [])
apply_local (spec ∷ specs) c =
    let (c', id) = apply_spec spec c in let (c'', ids) = apply_local specs c' in (c'', id ∷ ids)

unfoldable pub handle_apply_local :
    (is_post : Bool) → Option (List RuleSpec) → ChaosApi → ChaosApi × Reply (List Bytes)
handle_apply_local false body c = (c, refused 405)
handle_apply_local true none c = (c, refused 400)
handle_apply_local true (some specs) c = let (c', ids) = apply_local specs c in (c', accepted ids)

unfoldable pub handle_heal_local : (is_post : Bool) → ChaosApi → ChaosApi × Reply Bytes
handle_heal_local false c = (c, refused 405)
handle_heal_local true c = (record c { proxy = clear_rules c.proxy }, accepted c.node_id)

-- The parameters are left out.
pub record RuleResponse : Type 0 where
  pub id : Bytes
  pub from_node : Bytes
  pub to_node : Bytes
  pub action : Bytes

abbrev pub to_rule_response : ProxyRule → RuleResponse
to_rule_response r = record {
  id = r.id;
  from_node = r.from_node;
  to_node = r.to_node;
  action = action_string r.action;
}

unfoldable pub to_rule_responses : List ProxyRule → List RuleResponse
to_rule_responses rules = map to_rule_response rules

unfoldable pub handle_rules : ChaosApi → List RuleResponse
handle_rules c = to_rule_responses c.proxy.rules
