-- ===== src/ConfigApi/Posted.antt =====
-- server/config.go: the nodes while a request for timings goes to one after the other.
use mathlib.Core.Path.{ap₂, subst}
use raftly.Common.{
  ℕ, ◌≡◌, ◌≢◌, ◌⊎◌, refl, sym, ◌∙◌, ap, List, [], ◌∷◌, some, true, false, Bytes, str_eq, str_eq_iff,
  Bool-cases, Option-cases, inl, inr, arith,
}
use raftly.Node.{Node}
use raftly.Http.{Delivery, lost, Nodes, http_address}
use raftly.Http.Calls.{call_keeps_api, call_elsewhere, call_served, is_listed}
use raftly.ConfigApi.{
  ConfigApi, get_timings, TimingsBody, duration, view_of, set_timings, http_post,
  handle_node_config, ask_peer, post_at, each,
}
use raftly.ConfigApi.Timings.{IsMillis, duration-IsMillis, set_timings-IsMillis}

module _ (net : Bytes → Delivery) (body : TimingsBody) (et : IsMillis body.election_timeout_ms)
    (hb : IsMillis body.heartbeat_ms) where
  abbrev pub posted : ℕ × ℕ
  posted = (duration body.election_timeout_ms, duration body.heartbeat_ms)

  post_keeps :
      (id : Bytes) (s : Nodes ConfigApi)
      → ((post_at net body id s).0.api.node_id ≡ s.api.node_id)
        × ((post_at net body id s).0.api.http_peers ≡ s.api.http_peers)
  unfolding post_at ask_peer
  post_keeps id s = elim (Bool-cases (str_eq id s.api.node_id)) [
    | inl own ↦ rw (post_at, own) (refl, refl)
    | inr other ↦ elim (Option-cases (http_address id s.api.http_peers)) [
      | inl unknown ↦ rw (post_at, other, ask_peer, unknown) (refl, refl)
      | inr (a, known) ↦
          let kept = call_keeps_api net a (handle_node_config http_post (some body)) s in
          rw (post_at, other, ask_peer, known)
            (ap (λ (c : ConfigApi). c.node_id) kept, ap (λ (c : ConfigApi). c.http_peers) kept)
    ]
  ]

  own_told :
      (id : Bytes) (s : Nodes ConfigApi)
      → str_eq id s.api.node_id ≡ true
      → get_timings (post_at net body id s).0.api.node ≡ posted
  unfolding post_at
  own_told id s own = rw (post_at, own) (set_timings-IsMillis body s.api.node et hb)

  own_kept :
      (id : Bytes) (s : Nodes ConfigApi)
      → get_timings s.api.node ≡ posted
      → get_timings (post_at net body id s).0.api.node ≡ posted
  unfolding post_at ask_peer
  own_kept id s told = elim (Bool-cases (str_eq id s.api.node_id)) [
    | inl own ↦ own_told id s own
    | inr other ↦ elim (Option-cases (http_address id s.api.http_peers)) [
      | inl unknown ↦ rw (post_at, other, ask_peer, unknown) told
      | inr (a, known) ↦
          let kept = call_keeps_api net a (handle_node_config http_post (some body)) s in
          rw (post_at, other, ask_peer, known)
            (ap (λ (c : ConfigApi). get_timings c.node) kept ∙ told)
    ]
  ]

  pub each_own :
      (p : Bytes) (ids : List Bytes) (s : Nodes ConfigApi)
      → p ≡ s.api.node_id
      → (is_listed p ids ≡ true) ⊎ (get_timings s.api.node ≡ posted)
      → get_timings (each (post_at net body) ids s).0.api.node ≡ posted
  each_own p [] s own (inl listed) = absurd (let q = listed in cc)
  each_own p [] s own (inr told) = told
  each_own p (id ∷ ids) s own h =
      let s1 = (post_at net body id s).0 in
      let still = own ∙ sym (post_keeps id s).0 in
      elim (Bool-cases (str_eq id p)) [
        | inl here ↦ each_own p ids s1 still (inr (own_told id s (ap (str_eq id) (sym own) ∙ here)))
        | inr other ↦ elim h [
          | inl listed ↦ each_own p ids s1 still (inl (let q = listed in ground arith))
          | inr told ↦ each_own p ids s1 still (inr (own_kept id s told))
        ]
      ]

  -- The server at an address has the timings.
  abbrev pub IsTold : Bytes → Nodes ConfigApi → Type 0
  IsTold a s = (api : ConfigApi) × (s.servers a ≡ some api) × (get_timings api.node ≡ posted)

  abbrev pub Serves : Bytes → Nodes ConfigApi → Type 0
  Serves a s = (api : ConfigApi) × (s.servers a ≡ some api)

  module _ (p a : Bytes) (arrives : net a ≢ lost) where
    peer-IsTold :
        (s : Nodes ConfigApi)
        → str_eq p s.api.node_id ≡ false
        → http_address p s.api.http_peers ≡ some a
        → Serves a s
        → IsTold a (post_at net body p s).0
    unfolding post_at ask_peer handle_node_config
    peer-IsTold s other known (api, serves) = (
      record api { node = set_timings body api.node },
      rw (post_at, other, ask_peer, known)
          (call_served net a (handle_node_config http_post (some body)) s api serves arrives),
      set_timings-IsMillis body api.node et hb,
    )

    peer_kept :
        (id : Bytes) (s : Nodes ConfigApi)
        → str_eq id p ≡ false
        → ((k : Bytes) → http_address k s.api.http_peers ≡ some a → k ≡ p)
        → (post_at net body id s).0.servers a ≡ s.servers a
    unfolding post_at ask_peer
    peer_kept id s differs only = elim (Bool-cases (str_eq id s.api.node_id)) [
      | inl own ↦ rw (post_at, own) refl
      | inr other ↦ elim (Option-cases (http_address id s.api.http_peers)) [
        | inl unknown ↦ rw (post_at, other, ask_peer, unknown) refl
        | inr (b, known) ↦ elim (Bool-cases (str_eq b a)) [
          | inr apart ↦
              rw (post_at, other, ask_peer, known)
                (call_elsewhere net b a (handle_node_config http_post (some body)) s apart)
          | inl same ↦
              let id_is_p = only id (known ∙ ap some ((str_eq_iff b a).0 same)) in
              absurd (let q = (str_eq_iff id p).1 id_is_p in ground arith)
        ]
      ]
    ]

    pub each_peer :
        (ids : List Bytes) (s : Nodes ConfigApi)
        → str_eq p s.api.node_id ≡ false
        → http_address p s.api.http_peers ≡ some a
        → ((k : Bytes) → http_address k s.api.http_peers ≡ some a → k ≡ p)
        → Serves a s
        → (is_listed p ids ≡ true) ⊎ IsTold a s
        → IsTold a (each (post_at net body) ids s).0
    each_peer [] s other known only serves (inl listed) = absurd (let q = listed in cc)
    each_peer [] s other known only serves (inr told) = told
    each_peer (id ∷ ids) s other known only serves h =
        let s1 = (post_at net body id s).0 in
        let (same_id, same_peers) = post_keeps id s in
        let other1 : str_eq p s1.api.node_id ≡ false = ap (str_eq p) same_id ∙ other in
        let known1 : http_address p s1.api.http_peers ≡ some a =
          ap (http_address p) same_peers ∙ known in
        let only1 : (k : Bytes) → http_address k s1.api.http_peers ≡ some a → k ≡ p =
          λ k q. only k (ap (http_address k) (sym same_peers) ∙ q) in
        elim (Bool-cases (str_eq id p)) [
          | inl here ↦
              let told : IsTold a s1 =
                subst (λ t. IsTold a (post_at net body t s).0) (sym ((str_eq_iff id p).0 here))
                  (peer-IsTold s other known serves) in
              each_peer ids s1 other1 known1 only1 (told.0, told.1) (inr told)
          | inr differs ↦
              let same = peer_kept id s differs only in
              let serves1 : Serves a s1 = (serves.0, same ∙ serves.1) in
              elim h [
                | inl listed ↦
                    each_peer ids s1 other1 known1 only1 serves1
                      (inl (let q = listed in ground arith))
                | inr told ↦
                    each_peer ids s1 other1 known1 only1 serves1
                      (inr (told.0, same ∙ told.1, told.2))
              ]
        ]

  pub each_keeps :
      (ids : List Bytes) (s : Nodes ConfigApi)
      → ((each (post_at net body) ids s).0.api.node_id ≡ s.api.node_id)
        × ((each (post_at net body) ids s).0.api.http_peers ≡ s.api.http_peers)
  each_keeps [] s = (refl, refl)
  each_keeps (id ∷ ids) s =
      let (same_id, same_peers) = post_keeps id s in
      let (rest_id, rest_peers) = each_keeps ids (post_at net body id s).0 in
      (rest_id ∙ same_id, rest_peers ∙ same_peers)

  pub posted_view :
      (p : Bytes) (n : Node)
      → get_timings n ≡ posted
      → view_of p (get_timings n) ≡ record {
        node = p;
        election_timeout_ms = body.election_timeout_ms;
        heartbeat_ms = body.heartbeat_ms;
      }
  posted_view p n told =
      ap (view_of p) told
      ∙ ap₂ (λ x y. record { node = p; election_timeout_ms = x; heartbeat_ms = y })
          (duration-IsMillis body.election_timeout_ms et).1
          (duration-IsMillis body.heartbeat_ms hb).1
