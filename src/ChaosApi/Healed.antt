-- ===== src/ChaosApi/Healed.antt =====
-- server/chaos.go: the request that heals every node.
use mathlib.Core.Path.{subst}
use raftly.Common.{
  ◌≡◌, ◌≢◌, ◌⊎◌, refl, sym, ◌∙◌, ap, List, [], ◌∷◌, some, true, false, Bytes, str_eq, str_eq_iff,
  Bool-cases, Option-cases, inl, inr, arith,
}
use raftly.Proxy.{Roll, clear_rules, decide}
use raftly.Http.{Delivery, lost, Nodes, http_address}
use raftly.Http.Calls.{call_keeps_api, call_elsewhere, call_served, is_listed}
use raftly.ChaosApi.{ChaosApi, handle_heal_local}
use raftly.ChaosApi.Fanout.{peer_ids, heal_peer, heal_all, handle_cluster_heal}
use raftly.ChaosApi.Plans.{rules_at, decided, Reached, itself, remote}
use raftly.ChaosApi.Reach.{rules_at_own, rules_at_remote}
use raftly.ChaosApi.Targets.{peer_ids-is_listed}

module _ (net : Bytes → Delivery) where
  heal_keeps :
      (id : Bytes) (s : Nodes ChaosApi)
      → ((heal_peer net id s).0.api.node_id ≡ s.api.node_id)
        × ((heal_peer net id s).0.api.http_peers ≡ s.api.http_peers)
  unfolding heal_peer
  heal_keeps id s = elim (Bool-cases (str_eq id s.api.node_id)) [
    | inl own ↦ rw (heal_peer, own) (refl, refl)
    | inr other ↦ elim (Option-cases (http_address id s.api.http_peers)) [
      | inl unknown ↦ rw (heal_peer, other, unknown) (refl, refl)
      | inr (a, known) ↦
          let kept = call_keeps_api net a (handle_heal_local true) s in
          rw (heal_peer, other, known)
            (ap (λ (c : ChaosApi). c.node_id) kept, ap (λ (c : ChaosApi). c.http_peers) kept)
    ]
  ]

  own_healed :
      (id : Bytes) (s : Nodes ChaosApi)
      → str_eq id s.api.node_id ≡ true
      → (heal_peer net id s).0.api.proxy.rules ≡ []
  unfolding heal_peer clear_rules
  own_healed id s own = rw (heal_peer, own) refl

  own_kept :
      (id : Bytes) (s : Nodes ChaosApi)
      → s.api.proxy.rules ≡ []
      → (heal_peer net id s).0.api.proxy.rules ≡ []
  unfolding heal_peer
  own_kept id s healed = elim (Bool-cases (str_eq id s.api.node_id)) [
    | inl own ↦ own_healed id s own
    | inr other ↦ elim (Option-cases (http_address id s.api.http_peers)) [
      | inl unknown ↦ rw (heal_peer, other, unknown) healed
      | inr (a, known) ↦
          let kept = call_keeps_api net a (handle_heal_local true) s in
          rw (heal_peer, other, known) (ap (λ (c : ChaosApi). c.proxy.rules) kept ∙ healed)
    ]
  ]

  all_own :
      (p : Bytes) (ids : List Bytes) (s : Nodes ChaosApi)
      → p ≡ s.api.node_id
      → (is_listed p ids ≡ true) ⊎ (s.api.proxy.rules ≡ [])
      → ((heal_all net ids s).0.api.node_id ≡ s.api.node_id)
        × ((heal_all net ids s).0.api.proxy.rules ≡ [])
  all_own p [] s own (inl listed) = absurd (let q = listed in cc)
  all_own p [] s own (inr healed) = (refl, healed)
  all_own p (id ∷ ids) s own h =
      let s1 = (heal_peer net id s).0 in
      let same_id = (heal_keeps id s).0 in
      let ih = all_own p ids s1 (own ∙ sym same_id) (elim (Bool-cases (str_eq id p)) [
        | inl here ↦ inr (own_healed id s (ap (str_eq id) (sym own) ∙ here))
        | inr other ↦ elim h [
          | inl listed ↦ inl (let q = listed in ground arith)
          | inr healed ↦ inr (own_kept id s healed)
        ]
      ]) in
      (ih.0 ∙ same_id, ih.1)

  -- The server at an address has no rules.
  abbrev IsHealed : Bytes → Nodes ChaosApi → Type 0
  IsHealed a s = (api : ChaosApi) × (s.servers a ≡ some api) × (api.proxy.rules ≡ [])

  module _ (p a : Bytes) (arrives : net a ≢ lost) where
    peer-IsHealed :
        (s : Nodes ChaosApi)
        → str_eq p s.api.node_id ≡ false
        → http_address p s.api.http_peers ≡ some a
        → ((api : ChaosApi) × (s.servers a ≡ some api))
        → IsHealed a (heal_peer net p s).0
    unfolding heal_peer handle_heal_local clear_rules
    peer-IsHealed s other known (api, serves) = (
      (handle_heal_local true api).0,
      rw (heal_peer, other, known)
          (call_served net a (handle_heal_local true) s api serves arrives),
      refl,
    )

    peer_kept :
        (id : Bytes) (s : Nodes ChaosApi)
        → str_eq id p ≡ false
        → ((k : Bytes) → http_address k s.api.http_peers ≡ some a → k ≡ p)
        → (heal_peer net id s).0.servers a ≡ s.servers a
    unfolding heal_peer
    peer_kept id s differs only = elim (Bool-cases (str_eq id s.api.node_id)) [
      | inl own ↦ rw (heal_peer, own) refl
      | inr other ↦ elim (Option-cases (http_address id s.api.http_peers)) [
        | inl unknown ↦ rw (heal_peer, other, unknown) refl
        | inr (b, known) ↦ elim (Bool-cases (str_eq b a)) [
          | inr apart ↦
              rw (heal_peer, other, known) (call_elsewhere net b a (handle_heal_local true) s apart)
          | inl same ↦
              let id_is_p = only id (known ∙ ap some ((str_eq_iff b a).0 same)) in
              absurd (let q = (str_eq_iff id p).1 id_is_p in ground arith)
        ]
      ]
    ]

    all_peer :
        (ids : List Bytes) (s : Nodes ChaosApi)
        → str_eq p s.api.node_id ≡ false
        → http_address p s.api.http_peers ≡ some a
        → ((k : Bytes) → http_address k s.api.http_peers ≡ some a → k ≡ p)
        → ((api : ChaosApi) × (s.servers a ≡ some api))
        → (is_listed p ids ≡ true) ⊎ IsHealed a s
        → ((heal_all net ids s).0.api.node_id ≡ s.api.node_id)
          × ((heal_all net ids s).0.api.http_peers ≡ s.api.http_peers)
          × IsHealed a (heal_all net ids s).0
    all_peer [] s other known only serves (inl listed) = absurd (let q = listed in cc)
    all_peer [] s other known only serves (inr healed) = (refl, refl, healed)
    all_peer (id ∷ ids) s other known only serves h =
        let s1 = (heal_peer net id s).0 in
        let (same_id, same_peers) = heal_keeps id s in
        let rest =
          all_peer ids s1 (ap (str_eq p) same_id ∙ other) (ap (http_address p) same_peers ∙ known)
            (λ k q. only k (ap (http_address k) (sym same_peers) ∙ q)) in
        let state : ((api : ChaosApi) × (s1.servers a ≡ some api))
            × ((is_listed p ids ≡ true) ⊎ IsHealed a s1) =
          elim (Bool-cases (str_eq id p)) [
            | inl here ↦
                let healed : IsHealed a s1 =
                  subst (λ t. IsHealed a (heal_peer net t s).0) (sym ((str_eq_iff id p).0 here))
                    (peer-IsHealed s other known serves) in
                ((healed.0, healed.1), inr healed)
            | inr differs ↦
                let same = peer_kept id s differs only in
                (
                  (serves.0, same ∙ serves.1),
                  elim h [
                    | inl listed ↦ inl (let q = listed in ground arith)
                    | inr healed ↦ inr (healed.0, same ∙ healed.1, healed.2)
                  ],
                )
          ] in
        let ih = rest state.0 state.1 in (ih.0 ∙ same_id, ih.1 ∙ same_peers, ih.2)

rules_healed :
    (net : Bytes → Delivery) (s : Nodes ChaosApi) (p : Bytes)
    → Reached net s p
    → rules_at p (handle_cluster_heal net s).0 ≡ []
unfolding handle_cluster_heal
rules_healed net s p (itself a known own) =
    let is_own = (str_eq_iff p s.api.node_id).0 own in
    let (same_id, healed) =
      all_own net p (peer_ids s.api) s is_own (inl (peer_ids-is_listed p a s.api known)) in
    rules_at_own p (heal_all net (peer_ids s.api) s).0 (ap (str_eq p) same_id ∙ own) ∙ healed
rules_healed net s p (remote a api known other serves arrives only) =
    let (same_id, same_peers, (after, served, healed)) =
      all_peer net p a arrives (peer_ids s.api) s other known only (api, serves)
        (inl (peer_ids-is_listed p a s.api known)) in
    rules_at_remote p a (heal_all net (peer_ids s.api) s).0 after (ap (str_eq p) same_id ∙ other)
      (ap (http_address p) same_peers ∙ known) served
    ∙ healed

-- After the request that heals the cluster, a node that it reaches delivers every message at once,
-- whatever rules there were: those of the faults set over HTTP and those set in another way.
pub cluster_heal_delivers :
    (net : Bytes → Delivery) (s : Nodes ChaosApi) (roll : Roll) (p to : Bytes)
    → Reached net s p
    → decided roll (handle_cluster_heal net s).0 p to ≡ (true, 0)
unfolding decide
cluster_heal_delivers net s roll p to reached =
    ap (λ rules. decide roll rules p to) (rules_healed net s p reached)
