-- ===== src/Kv/Handlers.antt =====
-- server/api.go: the branches of GET.
use mathlib.Core.Path.{ap₂}
use raftly.Common.{
  ◌≡◌, ◌≢◌, ◌↔◌, ◌⊎◌, refl, sym, ◌∙◌, ap, [], Option, none, some, true, false, Bytes, str_eq,
  str_eq_iff, Bool-cases, Option-cases, inl, inr, arith,
}
use raftly.Node.{Node, is_leader}
use raftly.Kv.{
  lookup, KvStore, Request, Response, status, key_value, Relay, malformed, unreachable, relayed,
  Upstream, key_of, proxy_to_leader, handle_get,
}
use raftly.Kv.Refines.{view}

-- The request is for the leader, and names a key.
abbrev pub IsServed : Request → Node → Type 0
IsServed req n = (is_leader n.state ≡ true) × (key_of req ≢ [])

-- The request goes on to the leader, whose address is known, and the response comes back.
abbrev pub IsRelayed : Upstream → KvStore → Request → Node → Response → Type 0
IsRelayed up kv req n r =
    (is_leader n.state ≡ false)
    × (n.leader_id ≢ [])
    × ((address : Bytes) × (lookup n.leader_id kv.http_peers ≡ some address)
        × (up address req ≡ relayed r))

abbrev response_of : Relay → Response
response_of malformed = status 500
response_of unreachable = status 502
response_of (relayed r) = r

response_of-key_value :
    (f : Relay) {key value : Bytes}
    → response_of f ≡ key_value key value
    → f ≡ relayed (key_value key value)
response_of-key_value malformed p = absurd (cc)
response_of-key_value unreachable p = absurd (cc)
response_of-key_value (relayed r) p = ap relayed p

relay_iff :
    (up : Upstream) (kv : KvStore) (req : Request) (n : Node) (key value : Bytes)
    → is_leader n.state ≡ false
    → (proxy_to_leader up kv req n ≡ key_value key value)
      ↔ IsRelayed up kv req n (key_value key value)
unfolding proxy_to_leader
relay_iff up kv req n key value off = elim (Bool-cases (str_eq n.leader_id [])) [
  | inl nobody ↦
      let h : proxy_to_leader up kv req n ≡ status 503 = rw (proxy_to_leader, nobody) refl in
      (
        λ p. absurd (let q = sym h ∙ p in cc),
        λ r. absurd (r.1 ((str_eq_iff n.leader_id []).0 nobody)),
      )
  | inr led ↦ elim (Option-cases (lookup n.leader_id kv.http_peers)) [
    | inl missing ↦
        let h : proxy_to_leader up kv req n ≡ status 503 =
          rw (proxy_to_leader, led, missing) refl in
        (λ p. absurd (let q = sym h ∙ p in cc), λ r. absurd (let q = sym missing ∙ r.2.1 in cc))
    | inr (a, there) ↦
        let named : n.leader_id ≢ [] = λ e. ground (arith, str_eq_iff n.leader_id []) in
        let h : proxy_to_leader up kv req n ≡ response_of (up a req) =
          rw (proxy_to_leader, led, there) refl in
        (
          λ p. (off, named, (a, there, response_of-key_value (up a req) (sym h ∙ p))),
          λ r.
              let same : r.2.0 ≡ a = (let q = sym r.2.1 ∙ there in cc) in
              h ∙ ap response_of (ap (λ b. up b req) (sym same) ∙ r.2.2),
        )
  ]
]

-- What a GET answers for a value that the store may have.
abbrev pub reading : Bytes → Option Bytes → Response
reading key none = status 404
reading key (some value) = key_value key value

handle_get-IsServed :
    (up : Upstream) (kv : KvStore) (req : Request) (n : Node)
    → IsServed req n
    → handle_get up kv req n ≡ reading (key_of req) (view kv (key_of req))
unfolding handle_get
handle_get-IsServed up kv req n (leads, named) =
    let nonempty : str_eq (key_of req) [] ≡ false = ground (arith, str_eq_iff (key_of req) []) in
    elim (Option-cases (lookup (key_of req) kv.contents)) [
      | inl missing ↦ rw (handle_get, leads, nonempty, missing) refl
      | inr (v, there) ↦ rw (handle_get, leads, nonempty, there) refl
    ]

served :
    (up : Upstream) (kv : KvStore) (req : Request) (n : Node) (key value : Bytes)
    → IsServed req n
    → (handle_get up kv req n ≡ key_value key value)
      ↔ (IsServed req n × (key ≡ key_of req) × (view kv (key_of req) ≡ some value))
served up kv req n key value s =
    let h = handle_get-IsServed up kv req n s in
    elim (Option-cases (view kv (key_of req))) [
      | inl missing ↦
          let g : handle_get up kv req n ≡ status 404 = h ∙ ap (reading (key_of req)) missing in
          (λ p. absurd (let q = sym g ∙ p in cc), λ r. absurd (let q = sym missing ∙ r.2 in cc))
      | inr (v, there) ↦
          let g : handle_get up kv req n ≡ key_value (key_of req) v =
            h ∙ ap (reading (key_of req)) there in
          (
            λ p.
                let q : key_value (key_of req) v ≡ key_value key value = sym g ∙ p in
                (
                  s,
                  (let e : key ≡ key_of req = cc in e),
                  there ∙ ap some (let e : v ≡ value = cc in e),
                ),
            λ r.
                let e : v ≡ value = (let q = sym there ∙ r.2 in cc) in
                g ∙ ap₂ key_value (sym r.1) e,
          )
    ]

either_alone : {P Q R : Type 0} → ¬ Q → P ↔ R → P ↔ (R ⊎ Q)
either_alone never (to, from) =
    (λ p. inl (to p), λ e. elim e [ inl r ↦ from r | inr q ↦ absurd (never q) ])

-- A GET answers 200 with a key and a value in exactly two cases: the node leads, the path names a
-- key, and its store has the value there; or it does not lead, knows the leader and the address,
-- and the request that goes on there is answered with them.
pub handle_get_iff :
    (up : Upstream) (kv : KvStore) (req : Request) (n : Node) (key value : Bytes)
    → (handle_get up kv req n ≡ key_value key value) ↔ (
        (IsServed req n × (key ≡ key_of req) × (view kv (key_of req) ≡ some value))
        ⊎ IsRelayed up kv req n (key_value key value))
unfolding handle_get
handle_get_iff up kv req n key value = elim (Bool-cases (is_leader n.state)) [
  | inr off ↦
      let h : handle_get up kv req n ≡ proxy_to_leader up kv req n = rw (handle_get, off) refl in
      let (to, from) = relay_iff up kv req n key value off in
      (
        λ p. inr (to (sym h ∙ p)),
        λ r. elim r [ inl s ↦ absurd (let q = sym s.0.0 ∙ off in cc) | inr relay ↦ h ∙ from relay ],
      )
  | inl on ↦
      let alone : ¬ IsRelayed up kv req n (key_value key value) =
        λ r. (let q = sym on ∙ r.0 in cc) in
      elim (Bool-cases (str_eq (key_of req) [])) [
        | inl empty ↦
            let h : handle_get up kv req n ≡ status 400 = rw (handle_get, on, empty) refl in
            either_alone alone (
              λ p. absurd (let q = sym h ∙ p in cc),
              λ r. absurd (r.0.1 ((str_eq_iff (key_of req) []).0 empty)),
            )
        | inr named ↦
            either_alone alone
              (served up kv req n key value (on, λ e. ground (arith, str_eq_iff (key_of req) [])))
      ]
]
