-- ===== src/Proxy.antt =====
-- transport/proxy.go: the rules that decide on each message. A rule's parameters are a map from
-- names to values of any type; here a missing or ill-typed one is `none`, and an `int` and a
-- `time.Duration` are 64 bits of two's complement, with their wrap-around. `rand.Float64()` is a
-- multiple of 2^-53, so that a loss rate is the least number of such steps that is not below it.
pub mod Rules
mod Tests
use raftly.Common.{
  ℕ, ◌+◌, ◌*◌, ◌%◌, List, [], ◌∷◌, ◌++◌, Option, none, some, get_or, Bool, true, false, ◌||◌, ◌&&◌,
  not, Bytes, ltb, is_positive, u64, str_eq, if◌then◌else◌,
}
use raftly.Config.{millisecond}

pub data ProxyAction : Type 0 where
  action_pass action_drop action_delay action_loss : ProxyAction

pub record Params : Type 0 where
  pub delay_ms : Option ℕ
  pub jitter_ms : Option ℕ
  pub loss_rate : Option ℕ

pub record ProxyRule : Type 0 where
  pub id : Bytes
  pub from_node : Bytes
  pub to_node : Bytes
  pub action : ProxyAction
  pub params : Params

pub record NetworkProxy : Type 0 where
  pub rules : List ProxyRule

-- The random numbers that a decision reads.
pub record Roll : Type 0 where
  pub jitter : ℕ
  pub loss : ℕ

unfoldable pub new_network_proxy : NetworkProxy
new_network_proxy = record { rules = [] }

unfoldable pub add_rule : ProxyRule → NetworkProxy → NetworkProxy
add_rule rule p = record { rules = p.rules ++ rule ∷ [] }

abbrev pub without_id : Bytes → List ProxyRule → List ProxyRule
without_id id [] = []
without_id id (r ∷ rs) =
    let rest = without_id id rs in if not (str_eq r.id id) then r ∷ rest else rest

unfoldable pub remove_rule : Bytes → NetworkProxy → NetworkProxy
remove_rule id p = record { rules = without_id id p.rules }

unfoldable pub clear_rules : NetworkProxy → NetworkProxy
clear_rules p = record { rules = [] }

unfoldable pub matches : ProxyRule → Bytes → Bytes → Bool
matches rule from to =
    (str_eq rule.from_node [] || str_eq rule.from_node from)
    && (str_eq rule.to_node [] || str_eq rule.to_node to)

-- `rand.Intn(v)` for a positive `v`, else no jitter.
abbrev pub jitter_of : Roll → Params → ℕ
jitter_of roll params = elim params.jitter_ms [
  | none ↦ 0
  | some v ↦ if is_positive v then roll.jitter % v else 0
]

-- What the first rule that matches says: whether to deliver, and after how long.
abbrev pub verdict : Roll → ProxyRule → Bool × ℕ
verdict roll rule = elim rule.action [
  | action_drop ↦ (false, 0)
  | action_delay ↦
      (true, u64 (u64 (get_or rule.params.delay_ms 0 + jitter_of roll rule.params) * millisecond))
  | action_loss ↦ if ltb roll.loss (get_or rule.params.loss_rate 0) then (false, 0) else (true, 0)
  | action_pass ↦ (true, 0)
]

-- The loop over the rules.
unfoldable pub decide : Roll → List ProxyRule → Bytes → Bytes → Bool × ℕ
decide roll [] from to = (true, 0)
decide roll (rule ∷ rules) from to =
    let rest = decide roll rules from to in
    if not (matches rule from to) then rest else verdict roll rule

unfoldable pub should_deliver : Roll → NetworkProxy → Bytes → Bytes → Bool × ℕ
should_deliver roll p from to = decide roll p.rules from to
