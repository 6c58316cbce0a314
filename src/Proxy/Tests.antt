-- ===== src/Proxy/Tests.antt =====
-- transport/proxy.go: a delay before a drop, and the other way round.
use raftly.Common.{◌*◌, ◌≡◌, refl, [], ◌∷◌, none, some, true, false, str_eq}
use raftly.Config.{millisecond}
use raftly.Sample.{n1, n2}
use raftly.Proxy.{action_drop, action_delay, ProxyRule, Roll, matches, decide, should_deliver}

abbrev roll : Roll
roll = record { jitter = 12; loss = 0 }

abbrev slow : ProxyRule
slow = record {
  id = 49 ∷ [];
  from_node = n1;
  to_node = [];
  action = action_delay;
  params = record { delay_ms = some 20; jitter_ms = some 5; loss_rate = none };
}

abbrev cut : ProxyRule
cut = record slow { id = 50 ∷ []; action = action_drop }

slow_first :
    should_deliver roll (record { rules = slow ∷ cut ∷ [] }) n1 n2 ≡ (true, 22 * millisecond)
unfolding should_deliver decide matches str_eq
slow_first = refl

cut_first : should_deliver roll (record { rules = cut ∷ slow ∷ [] }) n1 n2 ≡ (false, 0)
unfolding should_deliver decide matches str_eq
cut_first = refl
