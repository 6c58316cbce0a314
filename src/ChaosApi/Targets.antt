-- ===== src/ChaosApi/Targets.antt =====
-- server/chaos.go: which rules the plans around a node have for whom.
use raftly.Common.{
  ◌≡◌, refl, ◌∙◌, ap, List, [], ◌∷◌, ◌++◌, append-nil, some, true, false, Bytes, Bool-cases, inl,
  inr, str_eq, str_eq_refl, str_eq_iff, if◌then◌else◌, arith,
}
use raftly.Proxy.{Params}
use raftly.Http.{http_address, ids_of}
use raftly.Http.Calls.{is_listed, is_listed-sort_strings, is_listed-ids_of}
use raftly.ChaosApi.{ChaosApi, RuleSpec}
use raftly.ChaosApi.Fanout.{
  peer_ids, Plan, without_node, set_rules, outbound, out_suffix, plan_others, around,
}
use raftly.ChaosApi.Plans.{rules_for}

pub peer_ids-is_listed :
    (p a : Bytes) (c : ChaosApi)
    → http_address p c.http_peers ≡ some a
    → is_listed p (peer_ids c) ≡ true
unfolding peer_ids
peer_ids-is_listed p a c h =
    is_listed-sort_strings p (ids_of c.http_peers) ∙ is_listed-ids_of p a c.http_peers h

rules_for-without_node : (p : Bytes) (plan : Plan) → rules_for p (without_node p plan) ≡ []
rules_for-without_node p [] = refl
rules_for-without_node p (q ∷ qs) = elim (Bool-cases (str_eq q.0 p)) [
  | inl same ↦ rw same (rules_for-without_node p qs)
  | inr differs ↦ rw (differs, differs) (rules_for-without_node p qs)
]

without_node_other :
    (k p : Bytes) (plan : Plan)
    → str_eq k p ≡ false
    → rules_for p (without_node k plan) ≡ rules_for p plan
without_node_other k p [] other = refl
without_node_other k p (q ∷ qs) other = elim (Bool-cases (str_eq q.0 k)) [
  | inl same ↦
      let differs : str_eq q.0 p ≡ false =
        ap (λ t. str_eq t p) ((str_eq_iff q.0 k).0 same) ∙ other in
      rw (same, differs) (without_node_other k p qs other)
  | inr differs ↦
      rw differs
        (ap (λ rest. if str_eq q.0 p then q.1 ++ rest else rest) (without_node_other k p qs other))
]

pub rules_for_set :
    (p : Bytes) (rules : List RuleSpec) (plan : Plan) → rules_for p (set_rules p rules plan) ≡ rules
rules_for_set p rules plan = rw (str_eq_refl p, rules_for-without_node p plan) (append-nil rules)

pub rules_for_other :
    (k p : Bytes) (rules : List RuleSpec) (plan : Plan)
    → str_eq k p ≡ false
    → rules_for p (set_rules k rules plan) ≡ rules_for p plan
rules_for_other k p rules plan other = rw other (without_node_other k p plan other)

module _ (target prefix middle action : Bytes) (params : Params) where
  -- The rule of another node for its messages to the target.
  abbrev pub inbound : Bytes → RuleSpec
  inbound id = outbound (prefix ++ (target ++ (middle ++ id))) target action params

  others_target :
      (ids : List Bytes) (plan : Plan)
      → rules_for target (plan_others target prefix middle action params ids plan)
        ≡ rules_for target plan
  others_target [] plan = refl
  others_target (id ∷ ids) plan = elim (Bool-cases (str_eq id target)) [
    | inl same ↦ rw same (others_target ids plan)
    | inr differs ↦ rw differs (
        others_target ids (set_rules id (inbound id ∷ []) plan)
        ∙ rules_for_other id target (inbound id ∷ []) plan differs)
  ]

  others_kept :
      (p : Bytes) (ids : List Bytes) (plan : Plan)
      → rules_for p plan ≡ inbound p ∷ []
      → rules_for p (plan_others target prefix middle action params ids plan) ≡ inbound p ∷ []
  others_kept p [] plan has = has
  others_kept p (id ∷ ids) plan has = elim (Bool-cases (str_eq id target)) [
    | inl same ↦ rw same (others_kept p ids plan has)
    | inr differs ↦ rw differs (
        others_kept p ids (set_rules id (inbound id ∷ []) plan) (elim (Bool-cases (str_eq id p)) [
          | inl own ↦
              let is_p : id ≡ p = (str_eq_iff id p).0 own in
              ap (λ t. rules_for p (set_rules t (inbound t ∷ []) plan)) is_p
              ∙ rules_for_set p (inbound p ∷ []) plan
          | inr other ↦ rules_for_other id p (inbound id ∷ []) plan other ∙ has
        ]))
  ]

  others_listed :
      (p : Bytes) (ids : List Bytes) (plan : Plan)
      → str_eq p target ≡ false
      → is_listed p ids ≡ true
      → rules_for p (plan_others target prefix middle action params ids plan) ≡ inbound p ∷ []
  others_listed p [] plan other listed = absurd (let q = listed in cc)
  others_listed p (id ∷ ids) plan other listed = elim (Bool-cases (str_eq id p)) [
    | inl own ↦
        let is_p : id ≡ p = (str_eq_iff id p).0 own in
        let not_target : str_eq id target ≡ false = ap (λ t. str_eq t target) is_p ∙ other in
        rw not_target (
          others_kept p ids (set_rules id (inbound id ∷ []) plan) (
            ap (λ t. rules_for p (set_rules t (inbound t ∷ []) plan)) is_p
            ∙ rules_for_set p (inbound p ∷ []) plan))
    | inr differs ↦
        let rest : is_listed p ids ≡ true = (let q = listed in ground arith) in
        others_listed p ids _ other rest
  ]

  pub around_target :
      (ids : List Bytes)
      → rules_for target (around target prefix middle action params ids)
        ≡ outbound (prefix ++ (target ++ out_suffix)) [] action params ∷ []
  unfolding around
  around_target ids =
      others_target ids _
      ∙ rules_for_set target (outbound (prefix ++ (target ++ out_suffix)) [] action params ∷ []) []

  pub around_other :
      (p : Bytes) (ids : List Bytes)
      → str_eq p target ≡ false
      → is_listed p ids ≡ true
      → rules_for p (around target prefix middle action params ids) ≡ inbound p ∷ []
  unfolding around
  around_other p ids other listed = others_listed p ids _ other listed
