-- ===== src/ChaosApi/Delay.antt =====
-- server/chaos.go over transport/proxy.go: delays and losses, whose rules have parameters.
use raftly.Common.{
  ℕ, ◌+◌, ◌*◌, ◌^◌, ◌≤◌, ◌<◌, ◌≡◌, ◌≢◌, ◌⊎◌, refl, ◌∙◌, ap, [], some, Bool, true, false, not, Bytes,
  is_positive, u64, ltb, str_eq, str_eq_iff, if◌then◌else◌, arith,
}
use raftly.Config.{millisecond}
use raftly.Proxy.{Params, Roll, jitter_of, verdict}
use raftly.Proxy.Rules.{Silent}
use raftly.Chaos.{no_params}
use raftly.Http.{Delivery, Nodes}
use raftly.Http.Calls.{str_eq_ne}
use raftly.ChaosApi.{ChaosApi, json_spec, delay, loss, action_from_string}
use raftly.ChaosApi.Fanout.{
  peer_ids, execute_plan, outbound, around, delay_prefix, loss_prefix, to_from, DelayBody,
  handle_delay, handle_loss,
}
use raftly.ChaosApi.Plans.{rules_at, decided, Reached}
use raftly.ChaosApi.Reach.{rule_of}
use raftly.ChaosApi.Faults.{around_decides}

abbrev pub delay_params : DelayBody → Params
delay_params body = record no_params {
  delay_ms = some body.delay_ms;
  jitter_ms = some body.jitter_ms;
}

abbrev loss_params : ℕ → Params
loss_params rate = record no_params { loss_rate = some rate }

delay_result :
    (net : Bytes → Delivery) (body : DelayBody) (s : Nodes ChaosApi)
    → body.node ≢ []
    → 0 < body.delay_ms
    → body.delay_ms < 2 ^ 63
    → (handle_delay net (some body) s).0
      ≡ (execute_plan net
          (around body.node delay_prefix to_from delay (delay_params body) (peer_ids s.api))
          s).0
unfolding handle_delay
delay_result net body s named positive bounded =
    let given = str_eq_ne body.node [] named in
    let some_delay : is_positive body.delay_ms ≡ true = ground arith in
    rw (handle_delay, given, some_delay) refl

loss_result :
    (net : Bytes → Delivery) (target : Bytes) (rate : ℕ) (s : Nodes ChaosApi)
    → target ≢ []
    → 0 < rate
    → rate ≤ 2 ^ 53
    → (handle_loss net (some (target, rate)) s).0
      ≡ (execute_plan net
          (around target loss_prefix to_from loss (loss_params rate) (peer_ids s.api))
          s).0
unfolding handle_loss
loss_result net target rate s named positive bounded =
    let given = str_eq_ne target [] named in
    let some_loss : ltb 0 rate ≡ true = ground arith in
    let in_range : ltb (2 ^ 53) rate ≡ false = ground arith in
    rw (handle_loss, given, some_loss, in_range) refl

verdict-delay :
    (b : Bool) (roll : Roll) (body : DelayBody)
    → verdict roll (
        rule_of (
          if b
          then outbound [] [] delay (delay_params body)
          else json_spec (outbound [] [] delay (delay_params body))))
      ≡ (
        true,
        if b
            then u64 (u64 (body.delay_ms + jitter_of roll (delay_params body)) * millisecond)
            else 0,
      )
unfolding action_from_string str_eq
verdict-delay true roll body = refl
verdict-delay false roll body = refl

verdict-loss :
    (b : Bool) (roll : Roll) (rate : ℕ)
    → verdict roll (
        rule_of (
          if b
          then outbound [] [] loss (loss_params rate)
          else json_spec (outbound [] [] loss (loss_params rate))))
      ≡ (not (ltb roll.loss rate), 0)
unfolding action_from_string str_eq
verdict-loss b roll rate = elim b [ true ↦ ground arith | false ↦ ground arith ]

u64-product : (a : ℕ) → a * millisecond < 2 ^ 63 → u64 (u64 a * millisecond) ≡ a * millisecond
u64-product a bounded = omega arith

-- A positive delay is asked for whose nanoseconds, those of the jitter included, fit a duration. A
-- node is given that the request reaches, and a message of it to or from the target that no earlier
-- rule is about. The node that handles the request delays it as asked, with the
-- jitter; every other node, the target included, delivers it at once.
pub delay_in_process_alone :
    (net : Bytes → Delivery) (s : Nodes ChaosApi) (body : DelayBody) (roll : Roll) (p to : Bytes)
    → body.node ≢ []
    → 0 < body.delay_ms
    → (body.delay_ms + jitter_of roll (delay_params body)) * millisecond < 2 ^ 63
    → Reached net s p
    → (p ≡ body.node) ⊎ (to ≡ body.node)
    → Silent (rules_at p s) p to
    → (p ≡ s.api.node_id
        → decided roll (handle_delay net (some body) s).0 p to
          ≡ (true, (body.delay_ms + jitter_of roll (delay_params body)) * millisecond))
      × (p ≢ s.api.node_id → decided roll (handle_delay net (some body) s).0 p to ≡ (true, 0))
unfolding str_eq
delay_in_process_alone net s body roll p to named positive fits reached touches quiet =
    let result =
      ap (λ n. decided roll n p to) (delay_result net body s named positive (omega arith))
      ∙ around_decides net s body.node delay_prefix to_from delay (delay_params body) (λ rest. refl)
          named roll p to reached touches quiet
      ∙ verdict-delay (str_eq p s.api.node_id) roll body in
    (
      λ own.
          result
          ∙ rw
              (
                (str_eq_iff p s.api.node_id).1 own,
                u64-product (body.delay_ms + jitter_of roll (delay_params body)) fits,
              )
              refl,
      λ other. result ∙ rw (str_eq_ne p s.api.node_id other) refl,
    )

-- A loss rate in range arrives at every node that the request reaches: a message to or from the
-- target that no earlier rule is about is delivered at once if the random number is not below the
-- rate, and else dropped.
loss_everywhere :
    (net : Bytes → Delivery) (s : Nodes ChaosApi) (target : Bytes) (rate : ℕ) (roll : Roll)
    (p to : Bytes)
    → target ≢ []
    → 0 < rate
    → rate ≤ 2 ^ 53
    → Reached net s p
    → (p ≡ target) ⊎ (to ≡ target)
    → Silent (rules_at p s) p to
    → decided roll (handle_loss net (some (target, rate)) s).0 p to ≡ (not (ltb roll.loss rate), 0)
unfolding str_eq
loss_everywhere net s target rate roll p to named positive bounded reached touches quiet =
    ap (λ n. decided roll n p to) (loss_result net target rate s named positive bounded)
    ∙ around_decides net s target loss_prefix to_from loss (loss_params rate) (λ rest. refl) named
        roll p to reached touches quiet
    ∙ verdict-loss (str_eq p s.api.node_id) roll rate
