-- ===== src/Chaos/Tests.antt =====
-- chaos/partition.go: the theorems about partitions at small inputs.
use raftly.Common.{◌≡◌, refl, [], ◌∷◌, true, none, some}
use raftly.Sample.{runs, n2, n3}
use raftly.Proxy.{action_delay, ProxyRule, Roll, matches, should_deliver}
use raftly.Chaos.{ChaosInjector, partition_node}
use raftly.Chaos.Partition.{earlier_rule_defeats_partition}

abbrev roll : Roll
roll = record { jitter = 12; loss = 0 }

-- Messages of n2 are delayed.
abbrev slow : ProxyRule
slow = record {
  id = 49 ∷ [];
  from_node = n2;
  to_node = [];
  action = action_delay;
  params = record { delay_ms = some 20; jitter_ms = none; loss_rate = none };
}

abbrev injector : ChaosInjector
injector = record { proxy = record { rules = slow ∷ [] }; rule_counter = 1 }

earlier_rule_defeats_partition_example :
    should_deliver roll (partition_node n2 injector).0.proxy n2 n3 ≡ (true, 20_000_000)
unfolding runs matches
earlier_rule_defeats_partition_example =
    earlier_rule_defeats_partition roll n2 injector [] slow [] n2 n3 20_000_000 refl tt refl refl
