-- ===== src/ChaosApi/Reach.antt =====
-- server/chaos.go: the proxies of the nodes after a plan.
use raftly.Common.{
  ◌≡◌, refl, sym, ◌∙◌, ap, List, [], ◌∷◌, ◌++◌, map, some, Bool, true, false, Bytes, str_eq,
  str_eq_iff, if◌then◌else◌,
}
use raftly.Proxy.{ProxyRule, add_rule}
use raftly.Http.{Delivery, Nodes, http_address}
use raftly.ChaosApi.{
  ChaosApi, RuleSpec, json_spec, action_from_string, ensure_id, apply_spec, apply_local,
}
use raftly.ChaosApi.Fanout.{Plan, install, execute_plan}
use raftly.ChaosApi.Plans.{
  rules_at, Reached, itself, remote, rules_for, install_keeps, execute_plan_api,
  execute_plan_servers,
}

-- The rule that `applyLocal` makes of a rule with an ID.
abbrev pub rule_of : RuleSpec → ProxyRule
rule_of spec = record {
  id = spec.id;
  from_node = spec.from_node;
  to_node = spec.to_node;
  action = action_from_string spec.action;
  params = spec.params;
}

-- A rule as its node has it: in process, or out of JSON.
abbrev pub wired : Bytes → Nodes ChaosApi → RuleSpec → RuleSpec
wired p s spec = if str_eq p s.api.node_id then spec else json_spec spec

apply_local_one :
    (spec : RuleSpec) (c : ChaosApi)
    → str_eq spec.id [] ≡ false
    → (apply_local (spec ∷ []) c).0.proxy.rules ≡ c.proxy.rules ++ (rule_of spec ∷ [])
unfolding apply_local apply_spec ensure_id add_rule
apply_local_one spec c named = rw (apply_spec, ensure_id, named) refl

execute_plan_keeps :
    (net : Bytes → Delivery) (plan : Plan) (s : Nodes ChaosApi)
    → ((execute_plan net plan s).0.api.node_id ≡ s.api.node_id)
      × ((execute_plan net plan s).0.api.http_peers ≡ s.api.http_peers)
unfolding execute_plan
execute_plan_keeps net [] s = (refl, refl)
execute_plan_keeps net (q ∷ qs) s =
    let (same_id, same_peers) = install_keeps net q.0 q.1 s in
    let (id, peers) = execute_plan_keeps net qs (install net q.0 q.1 s).0 in
    (id ∙ same_id, peers ∙ same_peers)

pub rules_at_own :
    (p : Bytes) (s : Nodes ChaosApi)
    → str_eq p s.api.node_id ≡ true
    → rules_at p s ≡ s.api.proxy.rules
rules_at_own p s own = rw own refl

pub rules_at_remote :
    (p a : Bytes) (s : Nodes ChaosApi) (api : ChaosApi)
    → str_eq p s.api.node_id ≡ false
    → http_address p s.api.http_peers ≡ some a
    → s.servers a ≡ some api
    → rules_at p s ≡ api.proxy.rules
rules_at_remote p a s api other known serves = rw (other, known, serves) refl

-- What is applied at a node is what the plan has for it.
rules_applied :
    (net : Bytes → Delivery) (plan : Plan) (s : Nodes ChaosApi) (p : Bytes) (specs : List RuleSpec)
    → Reached net s p
    → rules_for p plan ≡ specs
    → (c : ChaosApi) × (c.proxy.rules ≡ rules_at p s)
      × (rules_at p (execute_plan net plan s).0
          ≡ (apply_local
              (if str_eq p s.api.node_id then specs else map json_spec specs)
              c).0.proxy.rules)
rules_applied net plan s p specs (itself a known own) planned =
    let (same_id, _) = execute_plan_keeps net plan s in
    (
      s.api,
      sym (rules_at_own p s own),
      rules_at_own p (execute_plan net plan s).0 (ap (str_eq p) same_id ∙ own)
          ∙ ap (λ c. c.proxy.rules)
              (execute_plan_api net plan s p ((str_eq_iff p s.api.node_id).0 own))
          ∙ rw (own, planned) refl,
    )
rules_applied net plan s p specs (remote a api known other serves arrives only) planned =
    let (same_id, same_peers) = execute_plan_keeps net plan s in
    (
      api,
      sym (rules_at_remote p a s api other known serves),
      rules_at_remote p a (execute_plan net plan s).0
            (apply_local (map json_spec (rules_for p plan)) api).0 (ap (str_eq p) same_id ∙ other)
            (ap (http_address p) same_peers ∙ known)
            (execute_plan_servers net plan s p a api other known serves arrives only)
          ∙ rw (other, planned) refl,
    )

one_applied :
    (b : Bool) (spec : RuleSpec) (c : ChaosApi)
    → str_eq spec.id [] ≡ false
    → (apply_local (if b then spec ∷ [] else map json_spec (spec ∷ [])) c).0.proxy.rules
      ≡ c.proxy.rules ++ (rule_of (if b then spec else json_spec spec) ∷ [])
one_applied true spec c named = apply_local_one spec c named
one_applied false spec c named = apply_local_one (json_spec spec) c named

-- One rule with an ID: it stands behind those from before.
pub plan_installs :
    (net : Bytes → Delivery) (plan : Plan) (s : Nodes ChaosApi) (p : Bytes) (spec : RuleSpec)
    → Reached net s p
    → rules_for p plan ≡ spec ∷ []
    → str_eq spec.id [] ≡ false
    → rules_at p (execute_plan net plan s).0 ≡ rules_at p s ++ (rule_of (wired p s spec) ∷ [])
plan_installs net plan s p spec reached planned named =
    let (c, before, after) = rules_applied net plan s p (spec ∷ []) reached planned in
    after
    ∙ one_applied (str_eq p s.api.node_id) spec c named
    ∙ ap (λ rs. rs ++ (rule_of (wired p s spec) ∷ [])) before

none_applied :
    (b : Bool) (c : ChaosApi)
    → (apply_local (if b then [] else map json_spec []) c).0.proxy.rules ≡ c.proxy.rules
unfolding apply_local
none_applied true c = refl
none_applied false c = refl

pub plan_spares :
    (net : Bytes → Delivery) (plan : Plan) (s : Nodes ChaosApi) (p : Bytes)
    → Reached net s p
    → rules_for p plan ≡ []
    → rules_at p (execute_plan net plan s).0 ≡ rules_at p s
plan_spares net plan s p reached planned =
    let (c, before, after) = rules_applied net plan s p [] reached planned in
    after ∙ none_applied (str_eq p s.api.node_id) c ∙ before
