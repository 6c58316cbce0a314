-- ===== src/ChaosApi/Faults.antt =====
-- server/chaos.go over transport/proxy.go: what the requests that set faults do to the messages.
use raftly.Common.{
  ℕ, ◌≡◌, ◌≢◌, ◌⊎◌, refl, sym, ◌∙◌, ap, List, [], ◌∷◌, ◌++◌, some, Bool, true, false, ◌||◌, Bytes,
  Bool-cases, inl, inr, str_eq, str_eq_iff, if◌then◌else◌, arith,
}
use raftly.Proxy.{ProxyRule, Params, Roll, matches, verdict, decide}
use raftly.Proxy.Rules.{Silent, decide-Silent, decide-matches}
use raftly.Chaos.{no_params}
use raftly.Chaos.Partition.{decide-append}
use raftly.Http.{Delivery, Nodes}
use raftly.Http.Calls.{str_eq_ne, is_listed}
use raftly.ChaosApi.{ChaosApi, RuleSpec, json_spec, drop, action_from_string}
use raftly.ChaosApi.Fanout.{
  peer_ids, execute_plan, outbound, out_suffix, around, isolate_prefix, in_from, handle_isolate,
}
use raftly.ChaosApi.Plans.{rules_at, rules_for, decided, Reached, itself, remote}
use raftly.ChaosApi.Reach.{rule_of, wired, plan_installs}
use raftly.ChaosApi.Targets.{peer_ids-is_listed, around_target, around_other}

decide_matched :
    (roll : Roll) (rules : List ProxyRule) (rule : ProxyRule) (from to : Bytes)
    → Silent rules from to
    → matches rule from to ≡ true
    → decide roll (rules ++ (rule ∷ [])) from to ≡ verdict roll rule
decide_matched roll rules rule from to quiet m =
    decide-Silent roll rules (rule ∷ []) from to quiet ∙ decide-matches roll rule [] from to m

Reached-is_listed :
    (net : Bytes → Delivery) (s : Nodes ChaosApi) (p : Bytes)
    → Reached net s p
    → is_listed p (peer_ids s.api) ≡ true
Reached-is_listed net s p (itself a known own) = peer_ids-is_listed p a s.api known
Reached-is_listed net s p (remote a api known other serves arrives only) =
    peer_ids-is_listed p a s.api known

matches_out :
    (b : Bool) (id action : Bytes) (params : Params) (from to : Bytes)
    → matches
        (rule_of
          (if b then outbound id [] action params else json_spec (outbound id [] action params)))
        from
        to
      ≡ true
unfolding matches str_eq
matches_out true id action params from to = refl
matches_out false id action params from to = refl

matches_in :
    (b : Bool) (id target action : Bytes) (params : Params) (from to : Bytes)
    → matches
        (rule_of (
          if b
          then outbound id target action params
          else json_spec (outbound id target action params)))
        from
        to
      ≡ (str_eq target [] || str_eq target to)
unfolding matches str_eq
matches_in true id target action params from to = refl
matches_in false id target action params from to = refl

-- What a rule for messages with an action decides at a node: its parameters may have come in JSON.
abbrev pub effect : Roll → Bytes → Nodes ChaosApi → Bytes → Params → Bool × ℕ
effect roll p s action params = verdict roll (rule_of (wired p s (outbound [] [] action params)))

verdict_wired :
    (b : Bool) (roll : Roll) (id to action : Bytes) (params : Params)
    → verdict roll (
        rule_of
          (if b then outbound id to action params else json_spec (outbound id to action params)))
      ≡ verdict roll (
          rule_of
            (if b then outbound [] [] action params else json_spec (outbound [] [] action params)))
verdict_wired true roll id to action params = refl
verdict_wired false roll id to action params = refl

module _ (net : Bytes → Delivery) (s : Nodes ChaosApi) (target prefix middle action : Bytes)
    (params : Params) (named : (rest : Bytes) → str_eq (prefix ++ rest) [] ≡ false)
    (target_named : target ≢ []) (roll : Roll) (p to : Bytes) (reached : Reached net s p) where
  abbrev after : Nodes ChaosApi
  after = (execute_plan net (around target prefix middle action params (peer_ids s.api)) s).0

  abbrev own_rule : RuleSpec
  own_rule = outbound (prefix ++ (target ++ out_suffix)) [] action params

  abbrev in_rule : RuleSpec
  in_rule = outbound (prefix ++ (target ++ (middle ++ p))) target action params

  rules_target : p ≡ target → rules_at p after ≡ rules_at p s ++ (rule_of (wired p s own_rule) ∷ [])
  rules_target is_target =
      plan_installs net _ s p own_rule reached
        (ap (λ t. rules_for t (around target prefix middle action params (peer_ids s.api)))
            is_target
          ∙ around_target target prefix middle action params (peer_ids s.api))
        (named (target ++ out_suffix))

  rules_other : p ≢ target → rules_at p after ≡ rules_at p s ++ (rule_of (wired p s in_rule) ∷ [])
  rules_other differs =
      plan_installs net _ s p in_rule reached
        (around_other target prefix middle action params p (peer_ids s.api)
          (str_eq_ne p target differs) (Reached-is_listed net s p reached))
        (named (target ++ (middle ++ p)))

  pub around_decides :
      (p ≡ target) ⊎ (to ≡ target)
      → Silent (rules_at p s) p to
      → decided roll after p to ≡ effect roll p s action params
  around_decides touches quiet = elim (Bool-cases (str_eq p target)) [
    | inl same ↦
        ap (λ rules. decide roll rules p to) (rules_target ((str_eq_iff p target).0 same))
        ∙ decide_matched roll (rules_at p s) (rule_of (wired p s own_rule)) p to quiet
            (matches_out (str_eq p s.api.node_id) _ action params p to)
        ∙ verdict_wired (str_eq p s.api.node_id) roll _ _ action params
    | inr other ↦
        let differs : p ≢ target =
          λ h. absurd (let q = (str_eq_iff p target).1 h in ground arith) in
        let is_to : to ≡ target = elim touches [ inl q ↦ absurd (differs q) | inr q ↦ q ] in
        let matched =
          matches_in (str_eq p s.api.node_id) (prefix ++ (target ++ (middle ++ p))) target action
            params p to in
        let here : str_eq target to ≡ true = (str_eq_iff target to).1 (sym is_to) in
        ap (λ rules. decide roll rules p to) (rules_other differs)
        ∙ decide_matched roll (rules_at p s) (rule_of (wired p s in_rule)) p to quiet
            (matched ∙ ground arith)
        ∙ verdict_wired (str_eq p s.api.node_id) roll _ _ action params
  ]

  pub around_spares : p ≢ target → to ≢ target → decided roll after p to ≡ decided roll s p to
  around_spares other_from other_to =
      let matched =
        matches_in (str_eq p s.api.node_id) (prefix ++ (target ++ (middle ++ p))) target action
          params p to in
      let no_name : str_eq target [] ≡ false = str_eq_ne target [] target_named in
      let elsewhere : str_eq target to ≡ false = str_eq_ne target to (λ h. other_to (sym h)) in
      ap (λ rules. decide roll rules p to) (rules_other other_from)
      ∙ decide-append roll (rules_at p s) (rule_of (wired p s in_rule) ∷ []) p to
          (matched ∙ ground arith, tt)

isolate_result :
    (net : Bytes → Delivery) (target : Bytes) (s : Nodes ChaosApi)
    → target ≢ []
    → (handle_isolate net (some target) s).0
      ≡ (execute_plan net
          (around target isolate_prefix in_from drop no_params (peer_ids s.api))
          s).0
unfolding handle_isolate
isolate_result net target s named = rw (handle_isolate, str_eq_ne target [] named) refl

verdict-drop :
    (b : Bool) (roll : Roll)
    → verdict roll (
        rule_of
          (if b then outbound [] [] drop no_params else json_spec (outbound [] [] drop no_params)))
      ≡ (false, 0)
unfolding action_from_string str_eq
verdict-drop true roll = refl
verdict-drop false roll = refl

-- A node is the one that handles the request or is reached by it, and a target is given. After the
-- request that isolates the target, the node's proxy drops every message between it and the target
-- that no earlier rule is about; and it decides as before on the messages that the target neither
-- sends nor receives. It makes no difference whether other nodes are reached.
pub isolate_cuts_off :
    (net : Bytes → Delivery) (s : Nodes ChaosApi) (target : Bytes) (roll : Roll) (p to : Bytes)
    → target ≢ []
    → Reached net s p
    → ((p ≡ target) ⊎ (to ≡ target)
        → Silent (rules_at p s) p to
        → decided roll (handle_isolate net (some target) s).0 p to ≡ (false, 0))
      × (p ≢ target
          → to ≢ target
          → decided roll (handle_isolate net (some target) s).0 p to ≡ decided roll s p to)
unfolding str_eq
isolate_cuts_off net s target roll p to named reached =
    let result = ap (λ n. decided roll n p to) (isolate_result net target s named) in
    (
      λ touches quiet.
          result
          ∙ around_decides net s target isolate_prefix in_from drop no_params (λ rest. refl) named
              roll p to reached touches quiet
          ∙ verdict-drop (str_eq p s.api.node_id) roll,
      λ other_from other_to.
          result
          ∙ around_spares net s target isolate_prefix in_from drop no_params (λ rest. refl) named
              roll p to reached other_from other_to,
    )
