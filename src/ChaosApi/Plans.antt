-- ===== src/ChaosApi/Plans.antt =====
-- server/chaos.go: what a plan leaves at each node that it reaches.
use raftly.Common.{
  ℕ, ◌≡◌, ◌≢◌, refl, sym, ◌∙◌, ap, List, [], ◌∷◌, ◌++◌, map, none, some, Bool, true, false, Bytes,
  Bool-cases, Option-cases, inl, inr, str_eq, str_eq_iff, if◌then◌else◌, arith,
}
use mathlib.Core.List.{map-append}
use raftly.Proxy.{ProxyRule, Roll, decide}
use raftly.Http.{Delivery, lost, Nodes, http_address}
use raftly.Http.Calls.{call_keeps_api, call_elsewhere, call_served}
use raftly.ChaosApi.{
  ChaosApi, RuleSpec, json_spec, ensure_id, apply_spec, apply_local, handle_apply_local,
}
use raftly.ChaosApi.Fanout.{dispatch_rules, Plan, install, execute_plan}

-- The rules of the proxy at a node.
abbrev pub rules_at : Bytes → Nodes ChaosApi → List ProxyRule
rules_at p s =
    if str_eq p s.api.node_id then s.api.proxy.rules else elim (http_address p s.api.http_peers) [
      | none ↦ []
      | some address ↦ elim (s.servers address) [ none ↦ [] | some api ↦ api.proxy.rules ]
    ]

-- What the proxy at a node decides on a message of the node.
abbrev pub decided : Roll → Nodes ChaosApi → Bytes → Bytes → Bool × ℕ
decided roll s from to = decide roll (rules_at from s) from to

-- The node is the one that handles the request, or it alone has its address and is there reached.
pub data Reached (net : Bytes → Delivery) (s : Nodes ChaosApi) (p : Bytes) : Type 0 where
  itself :
      (a : Bytes)
      → http_address p s.api.http_peers ≡ some a
      → str_eq p s.api.node_id ≡ true
      → Reached net s p
  remote :
      (a : Bytes) (api : ChaosApi)
      → http_address p s.api.http_peers ≡ some a
      → str_eq p s.api.node_id ≡ false
      → s.servers a ≡ some api
      → net a ≢ lost
      → ((k : Bytes) → http_address k s.api.http_peers ≡ some a → k ≡ p)
      → Reached net s p

-- All rules that a plan has for a node.
abbrev pub rules_for : Bytes → Plan → List RuleSpec
rules_for p [] = []
rules_for p (q ∷ qs) = let rest = rules_for p qs in if str_eq q.0 p then q.1 ++ rest else rest

apply_local-append :
    (xs ys : List RuleSpec) (c : ChaosApi)
    → (apply_local (xs ++ ys) c).0 ≡ (apply_local ys (apply_local xs c).0).0
unfolding apply_local
apply_local-append [] ys c = refl
apply_local-append (x ∷ xs) ys c = apply_local-append xs ys (apply_spec x c).0

apply_spec_keeps :
    (x : RuleSpec) (c : ChaosApi)
    → ((apply_spec x c).0.node_id ≡ c.node_id) × ((apply_spec x c).0.http_peers ≡ c.http_peers)
unfolding apply_spec ensure_id
apply_spec_keeps x c = elim (Bool-cases (str_eq x.id [])) [
  | inl new ↦ rw (apply_spec, ensure_id, new) (refl, refl)
  | inr named ↦ rw (apply_spec, ensure_id, named) (refl, refl)
]

apply_local_keeps :
    (xs : List RuleSpec) (c : ChaosApi)
    → ((apply_local xs c).0.node_id ≡ c.node_id) × ((apply_local xs c).0.http_peers ≡ c.http_peers)
unfolding apply_local
apply_local_keeps [] c = (refl, refl)
apply_local_keeps (x ∷ xs) c =
    let (same_id, same_peers) = apply_spec_keeps x c in
    let (id, peers) = apply_local_keeps xs (apply_spec x c).0 in (id ∙ same_id, peers ∙ same_peers)

install_api :
    (net : Bytes → Delivery) (id : Bytes) (rules : List RuleSpec) (s : Nodes ChaosApi)
    → (install net id rules s).0.api
      ≡ (if str_eq id s.api.node_id then (apply_local rules s.api).0 else s.api)
unfolding install dispatch_rules
install_api net id rules s = elim (Option-cases (http_address id s.api.http_peers)) [
  | inl unknown ↦ ground arith
  | inr (a, known) ↦
      let kept = call_keeps_api net a (handle_apply_local true (some (map json_spec rules))) s in
      ground arith
]

-- The nodes' own view: who handles the request, and under which addresses it knows the others.
pub install_keeps :
    (net : Bytes → Delivery) (id : Bytes) (rules : List RuleSpec) (s : Nodes ChaosApi)
    → ((install net id rules s).0.api.node_id ≡ s.api.node_id)
      × ((install net id rules s).0.api.http_peers ≡ s.api.http_peers)
install_keeps net id rules s =
    let (same_id, same_peers) = apply_local_keeps rules s.api in
    elim (Bool-cases (str_eq id s.api.node_id)) [
      | inl own ↦ rw (install_api net id rules s, own) (same_id, same_peers)
      | inr other ↦ rw (install_api net id rules s, other) (refl, refl)
    ]

pub execute_plan_api :
    (net : Bytes → Delivery) (plan : Plan) (s : Nodes ChaosApi) (p : Bytes)
    → p ≡ s.api.node_id
    → (execute_plan net plan s).0.api ≡ (apply_local (rules_for p plan) s.api).0
unfolding execute_plan apply_local
execute_plan_api net [] s p own = refl
execute_plan_api net (q ∷ qs) s p own =
    let s1 = (install net q.0 q.1 s).0 in
    let (same_id, _) = install_keeps net q.0 q.1 s in
    let ih = execute_plan_api net qs s1 p (own ∙ sym same_id) in
    let step = install_api net q.0 q.1 s in
    elim (Bool-cases (str_eq q.0 p)) [
      | inl same ↦
          let here : (install net q.0 q.1 s).0.api ≡ (apply_local q.1 s.api).0 =
            step ∙ rw (← own, same) refl in
          rw same (
            ih
            ∙ ap (λ c. (apply_local (rules_for p qs) c).0) here
            ∙ sym (apply_local-append q.1 (rules_for p qs) s.api))
      | inr differs ↦
          let here : (install net q.0 q.1 s).0.api ≡ s.api = step ∙ rw (← own, differs) refl in
          rw differs (ih ∙ ap (λ c. (apply_local (rules_for p qs) c).0) here)
    ]

install_reached :
    (net : Bytes → Delivery) (rules : List RuleSpec) (s : Nodes ChaosApi) (p a : Bytes)
    (api : ChaosApi)
    → str_eq p s.api.node_id ≡ false
    → http_address p s.api.http_peers ≡ some a
    → s.servers a ≡ some api
    → net a ≢ lost
    → (install net p rules s).0.servers a ≡ some (apply_local (map json_spec rules) api).0
unfolding install dispatch_rules handle_apply_local
install_reached net rules s p a api other known serves arrives =
    rw (install, other, dispatch_rules, known)
      (call_served net a (handle_apply_local true (some (map json_spec rules))) s api serves
        arrives)

install_elsewhere :
    (net : Bytes → Delivery) (id : Bytes) (rules : List RuleSpec) (s : Nodes ChaosApi) (p a : Bytes)
    → str_eq id p ≡ false
    → ((k : Bytes) → http_address k s.api.http_peers ≡ some a → k ≡ p)
    → (install net id rules s).0.servers a ≡ s.servers a
unfolding install dispatch_rules
install_elsewhere net id rules s p a differs only = elim (Bool-cases (str_eq id s.api.node_id)) [
  | inl own ↦ rw (install, own) refl
  | inr other ↦ elim (Option-cases (http_address id s.api.http_peers)) [
    | inl unknown ↦ rw (install, other, dispatch_rules, unknown) refl
    | inr (b, known) ↦ elim (Bool-cases (str_eq b a)) [
      | inr apart ↦
          rw (install, other, dispatch_rules, known)
            (call_elsewhere net b a (handle_apply_local true (some (map json_spec rules))) s apart)
      | inl same ↦
          let b_is_a : b ≡ a = (str_eq_iff b a).0 same in
          let id_is_p = only id (known ∙ ap some b_is_a) in
          absurd (let q = (str_eq_iff id p).1 id_is_p in ground arith)
    ]
  ]
]

pub execute_plan_servers :
    (net : Bytes → Delivery) (plan : Plan) (s : Nodes ChaosApi) (p a : Bytes) (api : ChaosApi)
    → str_eq p s.api.node_id ≡ false
    → http_address p s.api.http_peers ≡ some a
    → s.servers a ≡ some api
    → net a ≢ lost
    → ((k : Bytes) → http_address k s.api.http_peers ≡ some a → k ≡ p)
    → (execute_plan net plan s).0.servers a
      ≡ some (apply_local (map json_spec (rules_for p plan)) api).0
unfolding execute_plan apply_local
execute_plan_servers net [] s p a api other known serves arrives only = serves
execute_plan_servers net (q ∷ qs) s p a api other known serves arrives only =
    let s1 = (install net q.0 q.1 s).0 in
    let (same_id, same_peers) = install_keeps net q.0 q.1 s in
    let other1 : str_eq p s1.api.node_id ≡ false = ap (str_eq p) same_id ∙ other in
    let known1 : http_address p s1.api.http_peers ≡ some a =
      ap (http_address p) same_peers ∙ known in
    let only1 : (k : Bytes) → http_address k s1.api.http_peers ≡ some a → k ≡ p =
      λ k h. only k (ap (http_address k) (sym same_peers) ∙ h) in
    elim (Bool-cases (str_eq q.0 p)) [
      | inl same ↦
          let is_p : q.0 ≡ p = (str_eq_iff q.0 p).0 same in
          let here : s1.servers a ≡ some (apply_local (map json_spec q.1) api).0 =
            ap (λ t. (install net t q.1 s).0.servers a) is_p
            ∙ install_reached net q.1 s p a api other known serves arrives in
          rw same (
            execute_plan_servers net qs s1 p a (apply_local (map json_spec q.1) api).0 other1 known1
              here arrives only1
            ∙ ap some (
                sym (apply_local-append (map json_spec q.1) (map json_spec (rules_for p qs)) api)
                ∙ ap (λ xs. (apply_local xs api).0)
                    (sym (map-append json_spec q.1 (rules_for p qs)))))
      | inr differs ↦ rw differs (
          execute_plan_servers net qs s1 p a api other1 known1
            (install_elsewhere net q.0 q.1 s p a differs only ∙ serves) arrives only1)
    ]
