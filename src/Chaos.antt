-- ===== src/Chaos.antt =====
-- chaos/injector.go, chaos/partition.go, chaos/loss.go and chaos/delay.go: faults as rules of the
-- proxy. The text of the observations and the clock are left out; the timers that heal are steps
-- of their own.
pub mod Partition
mod Tests
use raftly.Common.{
  ℕ, zero, suc, ◌+◌, ◌/◌, ◌%◌, List, [], ◌∷◌, ◌++◌, Option, none, some, Bool, true, false, Bytes,
  ltb, if◌then◌else◌,
}
use raftly.Proxy.{
  ProxyAction, action_drop, action_delay, action_loss, Params, ProxyRule, NetworkProxy, add_rule,
  remove_rule, clear_rules,
}

pub record ChaosInjector : Type 0 where
  pub proxy : NetworkProxy
  pub rule_counter : ℕ

unfoldable pub new_chaos_injector : NetworkProxy → ChaosInjector
new_chaos_injector proxy = record { proxy = proxy; rule_counter = 0 }

-- The digits of a number in decimal, as `%d` prints them; so many digits at most.
unfoldable pub decimal : ℕ → ℕ → Bytes
decimal zero n = []
decimal (suc fuel) n =
    let front = decimal fuel (n / 10) in
    if ltb n 10 then (48 + n) ∷ [] else front ++ (48 + n % 10) ∷ []

-- `"%s-%d"`
unfoldable pub rule_id : Bytes → ℕ → Bytes
rule_id prefix counter = prefix ++ (45 ∷ decimal (suc counter) counter)

-- The injector after `nextID`, and the ID.
unfoldable pub next_id : Bytes → ChaosInjector → ChaosInjector × Bytes
next_id prefix c =
    (record c { rule_counter = suc c.rule_counter }, rule_id prefix (suc c.rule_counter))

abbrev pub no_params : Params
no_params = record { delay_ms = none; jitter_ms = none; loss_rate = none }

-- Two rules with one action: for the messages from the node, and for those to it.
abbrev pub both_ways : ProxyAction → Params → Bytes → Bytes → Bytes → NetworkProxy → NetworkProxy
both_ways action params node_id from_id to_id p =
    add_rule
      (record { id = to_id; from_node = []; to_node = node_id; action = action; params = params })
      (add_rule
        (record {
          id = from_id;
          from_node = node_id;
          to_node = [];
          action = action;
          params = params;
        })
        p)

-- "part-from-" and "part-to-"; "loss-from-" and "loss-to-"; "delay-from-" and "delay-to-"; "apart".
abbrev pub part_from : Bytes
part_from = 112 ∷ 97 ∷ 114 ∷ 116 ∷ 45 ∷ 102 ∷ 114 ∷ 111 ∷ 109 ∷ 45 ∷ []

abbrev pub part_to : Bytes
part_to = 112 ∷ 97 ∷ 114 ∷ 116 ∷ 45 ∷ 116 ∷ 111 ∷ 45 ∷ []

abbrev pub loss_from : Bytes
loss_from = 108 ∷ 111 ∷ 115 ∷ 115 ∷ 45 ∷ 102 ∷ 114 ∷ 111 ∷ 109 ∷ 45 ∷ []

abbrev pub loss_to : Bytes
loss_to = 108 ∷ 111 ∷ 115 ∷ 115 ∷ 45 ∷ 116 ∷ 111 ∷ 45 ∷ []

abbrev pub delay_from : Bytes
delay_from = 100 ∷ 101 ∷ 108 ∷ 97 ∷ 121 ∷ 45 ∷ 102 ∷ 114 ∷ 111 ∷ 109 ∷ 45 ∷ []

abbrev pub delay_to : Bytes
delay_to = 100 ∷ 101 ∷ 108 ∷ 97 ∷ 121 ∷ 45 ∷ 116 ∷ 111 ∷ 45 ∷ []

abbrev pub apart : Bytes
apart = 97 ∷ 112 ∷ 97 ∷ 114 ∷ 116 ∷ []

-- The injector after a fault around a node, with the two IDs that `RuleIDs` keeps.
abbrev pub inject :
    Bytes → Bytes → ProxyAction → Params → Bytes → ChaosInjector → ChaosInjector × List Bytes
inject from to action params node_id c =
    let (c1, from_id) = next_id (from ++ node_id) c in
    let (c2, to_id) = next_id (to ++ node_id) c1 in
    (
      record c2 { proxy = both_ways action params node_id from_id to_id c2.proxy },
      from_id ∷ to_id ∷ [],
    )

unfoldable pub partition_node : Bytes → ChaosInjector → ChaosInjector × List Bytes
partition_node = inject part_from part_to action_drop no_params

unfoldable pub inject_packet_loss : Bytes → ℕ → ChaosInjector → ChaosInjector × List Bytes
inject_packet_loss node_id loss_rate =
    inject loss_from loss_to action_loss (record no_params { loss_rate = some loss_rate }) node_id

unfoldable pub inject_delay : Bytes → ℕ → ℕ → ChaosInjector → ChaosInjector × List Bytes
inject_delay node_id delay_ms jitter_ms =
    inject delay_from delay_to action_delay
      (record no_params { delay_ms = some delay_ms; jitter_ms = some jitter_ms }) node_id

-- The three directions; any other string adds no rule.
pub data Direction : Type 0 where
  both from_only to_only unknown : Direction

abbrev pub one_way : Bytes → Bytes → Bytes → NetworkProxy → NetworkProxy
one_way id from to p =
    add_rule
      (record { id = id; from_node = from; to_node = to; action = action_drop; params = no_params })
      p

unfoldable pub partition_asymmetric :
    Bytes → Bytes → Direction → ChaosInjector → ChaosInjector × List Bytes
partition_asymmetric from to both c =
    let (c1, id1) = next_id apart c in
    let (c2, id2) = next_id apart c1 in
    (record c2 { proxy = one_way id2 to from (one_way id1 from to c2.proxy) }, id1 ∷ id2 ∷ [])
partition_asymmetric from to from_only c =
    let (c1, id) = next_id apart c in (record c1 { proxy = one_way id from to c1.proxy }, id ∷ [])
partition_asymmetric from to to_only c =
    let (c1, id) = next_id apart c in (record c1 { proxy = one_way id to from c1.proxy }, id ∷ [])
partition_asymmetric from to unknown c = (c, [])

abbrev pub remove_rules : List Bytes → NetworkProxy → NetworkProxy
remove_rules [] p = p
remove_rules (id ∷ ids) p = remove_rules ids (remove_rule id p)

unfoldable pub heal_partition : List Bytes → ChaosInjector → ChaosInjector
heal_partition rule_ids c = record c { proxy = remove_rules rule_ids c.proxy }

unfoldable pub heal : ChaosInjector → ChaosInjector
heal c = record c { proxy = clear_rules c.proxy }
