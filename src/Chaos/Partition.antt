-- ===== src/Chaos/Partition.antt =====
-- chaos/partition.go over transport/proxy.go: whom a partition cuts off, and what healing restores.
use raftly.Common.{
  ℕ, suc, ◌≡◌, ◌≢◌, ◌⊎◌, refl, sym, ◌∙◌, ap, List, [], ◌∷◌, ◌++◌, append-nil, append_assoc, true,
  false, Bytes, Bool-cases, inl, inr, str_eq, str_eq_refl, str_eq_iff, arith,
}
use raftly.Proxy.{
  ProxyRule, action_drop, NetworkProxy, Roll, matches, verdict, decide, add_rule, without_id,
  remove_rule, should_deliver,
}
use raftly.Proxy.Rules.{
  Silent, decide-Silent, IsFresh, without_id-append, without_id-IsFresh, decide-matches,
}
use raftly.Chaos.{
  ChaosInjector, no_params, rule_id, next_id, part_from, part_to, partition_node, heal_partition,
}

abbrev from_rule : Bytes → Bytes → ProxyRule
from_rule id node_id = record {
  id = id;
  from_node = node_id;
  to_node = [];
  action = action_drop;
  params = no_params;
}

abbrev to_rule : Bytes → Bytes → ProxyRule
to_rule id node_id = record {
  id = id;
  from_node = [];
  to_node = node_id;
  action = action_drop;
  params = no_params;
}

-- The IDs of the two rules of a partition.
abbrev pub from_id : Bytes → ChaosInjector → Bytes
from_id node_id c = rule_id (part_from ++ node_id) (suc c.rule_counter)

abbrev pub to_id : Bytes → ChaosInjector → Bytes
to_id node_id c = rule_id (part_to ++ node_id) (suc (suc c.rule_counter))

partition_rules :
    (node_id : Bytes) (c : ChaosInjector)
    → (partition_node node_id c).0.proxy.rules
      ≡ c.proxy.rules
        ++ (from_rule (from_id node_id c) node_id ∷ to_rule (to_id node_id c) node_id ∷ [])
unfolding partition_node add_rule next_id
partition_rules node_id c =
    append_assoc c.proxy.rules (from_rule _ node_id ∷ []) (to_rule _ node_id ∷ [])

from_rule-matches : (id node_id to : Bytes) → matches (from_rule id node_id) node_id to ≡ true
unfolding matches str_eq
from_rule-matches id node_id to = ground (arith, str_eq_refl node_id)

to_rule-matches : (id node_id from : Bytes) → matches (to_rule id node_id) from node_id ≡ true
unfolding matches str_eq
to_rule-matches id node_id from = ground (arith, str_eq_refl node_id)

from_rule-other :
    (id node_id from to : Bytes)
    → node_id ≢ []
    → from ≢ node_id
    → matches (from_rule id node_id) from to ≡ false
unfolding matches
from_rule-other id node_id from to named other =
    ground (arith, str_eq_iff node_id [], str_eq_iff node_id from)

to_rule-other :
    (id node_id from to : Bytes)
    → node_id ≢ []
    → to ≢ node_id
    → matches (to_rule id node_id) from to ≡ false
unfolding matches
to_rule-other id node_id from to named other =
    ground (arith, str_eq_iff node_id [], str_eq_iff node_id to)

decide_pair :
    (roll : Roll) (a b : Bytes) (node_id from to : Bytes)
    → (from ≡ node_id) ⊎ (to ≡ node_id)
    → decide roll (from_rule a node_id ∷ to_rule b node_id ∷ []) from to ≡ (false, 0)
unfolding decide
decide_pair roll a b node_id from to touches =
    elim (Bool-cases (matches (from_rule a node_id) from to)) [
      | inl m ↦ decide-matches roll (from_rule a node_id) (to_rule b node_id ∷ []) from to m
      | inr n ↦ elim touches [
        | inl p ↦
            absurd (let m = from_rule-matches a node_id to in let q = rw (← p) at m in ground arith)
        | inr p ↦
            let m : matches (to_rule b node_id) from to ≡ true =
              rw p (to_rule-matches b node_id from) in
            rw (decide, n) (decide-matches roll (to_rule b node_id) [] from to m)
      ]
    ]

-- A partition drops every message to or from its node that no earlier rule is about.
pub partition_isolates :
    (roll : Roll) (node_id : Bytes) (c : ChaosInjector) (from to : Bytes)
    → (from ≡ node_id) ⊎ (to ≡ node_id)
    → Silent c.proxy.rules from to
    → should_deliver roll (partition_node node_id c).0.proxy from to ≡ (false, 0)
unfolding should_deliver
partition_isolates roll node_id c from to touches quiet =
    rw (should_deliver, partition_rules node_id c)
      (decide-Silent roll c.proxy.rules _ from to quiet
        ∙ decide_pair roll _ _ node_id from to touches)

pub decide-append :
    (roll : Roll) (rules quiet : List ProxyRule) (from to : Bytes)
    → Silent quiet from to
    → decide roll (rules ++ quiet) from to ≡ decide roll rules from to
unfolding decide
decide-append roll [] quiet from to s =
    ap (λ rs. decide roll rs from to) (sym (append-nil quiet))
    ∙ decide-Silent roll quiet [] from to s
decide-append roll (r ∷ rules) quiet from to s = elim (Bool-cases (matches r from to)) [
  | inl m ↦ rw (decide, m) refl
  | inr n ↦ rw (decide, n) (decide-append roll rules quiet from to s)
]

-- A partition around a named node changes nothing for a message between other nodes.
partition_spares :
    (roll : Roll) (node_id : Bytes) (c : ChaosInjector) (from to : Bytes)
    → node_id ≢ []
    → from ≢ node_id
    → to ≢ node_id
    → should_deliver roll (partition_node node_id c).0.proxy from to
      ≡ should_deliver roll c.proxy from to
unfolding should_deliver
partition_spares roll node_id c from to named other_from other_to =
    rw (should_deliver, partition_rules node_id c)
      (decide-append roll c.proxy.rules _ from to (
        from_rule-other _ node_id from to named other_from,
        (to_rule-other _ node_id from to named other_to, tt),
      ))

-- A partition does not drop a message that an earlier rule lets through, such as a delay or a loss
-- rule around one of its ends: the new rules stand behind the old ones, and the first match decides.
pub earlier_rule_defeats_partition :
    (roll : Roll) (node_id : Bytes) (c : ChaosInjector) (before : List ProxyRule) (rule : ProxyRule)
    (later : List ProxyRule) (from to : Bytes) (delay : ℕ)
    → c.proxy.rules ≡ before ++ (rule ∷ later)
    → Silent before from to
    → matches rule from to ≡ true
    → verdict roll rule ≡ (true, delay)
    → should_deliver roll (partition_node node_id c).0.proxy from to ≡ (true, delay)
unfolding should_deliver
earlier_rule_defeats_partition roll node_id c before rule later from to delay rules quiet m v =
    rw (should_deliver, partition_rules node_id c, rules, append_assoc before (rule ∷ later) _)
      (decide-Silent roll before _ from to quiet ∙ decide-matches roll rule _ from to m ∙ v)

without_pair :
    (a b node_id : Bytes)
    → without_id b (without_id a (from_rule a node_id ∷ to_rule b node_id ∷ [])) ≡ []
without_pair a b node_id = elim (Bool-cases (str_eq b a)) [
  | inl same ↦ rw (str_eq_refl a, same) refl
  | inr other ↦ rw (str_eq_refl a, other, str_eq_refl b) refl
]

-- Healing a partition restores the rules from before it, when none of them has one of its IDs.
heal_restores :
    (node_id : Bytes) (c : ChaosInjector)
    → IsFresh (from_id node_id c) c.proxy.rules
    → IsFresh (to_id node_id c) c.proxy.rules
    → (heal_partition (partition_node node_id c).1 (partition_node node_id c).0).proxy ≡ c.proxy
unfolding heal_partition remove_rule partition_node add_rule next_id
heal_restores node_id c fresh_from fresh_to =
    let of_rules : List ProxyRule → NetworkProxy = λ rs. record { rules = rs } in
    let a = from_id node_id c in
    let b = to_id node_id c in
    let pair = from_rule a node_id ∷ to_rule b node_id ∷ [] in
    ap of_rules (
      ap (λ rs. without_id b (without_id a rs))
        (append_assoc c.proxy.rules (from_rule a node_id ∷ []) (to_rule b node_id ∷ []))
      ∙ ap (without_id b) (without_id-append a c.proxy.rules pair)
      ∙ without_id-append b (without_id a c.proxy.rules) (without_id a pair)
      ∙ rw (without_pair a b node_id, without_id-IsFresh a c.proxy.rules fresh_from)
          (append-nil (without_id b c.proxy.rules))
      ∙ without_id-IsFresh b c.proxy.rules fresh_to)
