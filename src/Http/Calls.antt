-- ===== src/Http/Calls.antt =====
-- The calls between the nodes' servers: whom a call changes, and who is called.
use raftly.Common.{
  ◌≡◌, ◌≢◌, refl, ◌∙◌, ap, List, [], ◌∷◌, some, Bool, true, false, ◌||◌, Bytes, Bool-cases, inl,
  inr, Option-cases, ◌⊎◌, str_eq, str_eq_refl, str_eq_iff, arith,
}
use raftly.Http.{
  Reply, Delivery, lost, Nodes, set_server, http_address, insert_string, sort_strings, ids_of, call,
}

pub str_eq_ne : (s t : Bytes) → s ≢ t → str_eq s t ≡ false
str_eq_ne s t differ = elim (Bool-cases (str_eq s t)) [
  | inl same ↦ absurd (differ ((str_eq_iff s t).0 same))
  | inr other ↦ other
]

pub call_keeps_api :
    {S : Type 0} {A : Type 0}
    → (net : Bytes → Delivery) (a : Bytes) (h : S → S × Reply A) (s : Nodes S)
    → (call net a h s).0.api ≡ s.api
call_keeps_api net a h s = ground arith

call_outcomes :
    {S : Type 0} {A : Type 0}
    → (net : Bytes → Delivery) (a : Bytes) (h : S → S × Reply A) (s : Nodes S) (server : S)
    → s.servers a ≡ some server
    → ((call net a h s).0 ≡ s)
      ⊎ ((call net a h s).0 ≡ record s { servers = set_server a (h server).0 s.servers })
call_outcomes net a h s server serves = ground arith

-- A call leaves everything, or its handler has run at the server of its address.
pub call_effects :
    {S : Type 0} {A : Type 0}
    → (net : Bytes → Delivery) (a : Bytes) (h : S → S × Reply A) (s : Nodes S)
    → ((call net a h s).0 ≡ s)
      ⊎ ((server : S) × (s.servers a ≡ some server)
          × ((call net a h s).0 ≡ record s { servers = set_server a (h server).0 s.servers }))
call_effects net a h s = elim (Option-cases (s.servers a)) [
  | inl missing ↦ inl (ground arith)
  | inr (server, serves) ↦ elim (call_outcomes net a h s server serves) [
    | inl same ↦ inl same
    | inr after ↦ inr (server, serves, after)
  ]
]

-- A call at another address leaves a server alone, and one that arrives at its address is served.
pub call_elsewhere :
    {S : Type 0} {A : Type 0}
    → (net : Bytes → Delivery) (a b : Bytes) (h : S → S × Reply A) (s : Nodes S)
    → str_eq a b ≡ false
    → (call net a h s).0.servers b ≡ s.servers b
call_elsewhere net a b h s other = ground arith

pub call_served :
    {S : Type 0} {A : Type 0}
    → (net : Bytes → Delivery) (a : Bytes) (h : S → S × Reply A) (s : Nodes S) (api : S)
    → s.servers a ≡ some api
    → net a ≢ lost
    → (call net a h s).0.servers a ≡ some (h api).0
call_served net a h s api serves arrives = ground (arith, str_eq_refl a)

abbrev pub is_listed : Bytes → List Bytes → Bool
is_listed p [] = false
is_listed p (id ∷ ids) = str_eq id p || is_listed p ids

is_listed-insert_string :
    (p s : Bytes) (ts : List Bytes)
    → is_listed p (insert_string s ts) ≡ (str_eq s p || is_listed p ts)
is_listed-insert_string p s [] = refl
is_listed-insert_string p s (t ∷ ts) = let ih = is_listed-insert_string p s ts in ground arith

pub is_listed-sort_strings :
    (p : Bytes) (ss : List Bytes) → is_listed p (sort_strings ss) ≡ is_listed p ss
is_listed-sort_strings p [] = refl
is_listed-sort_strings p (s ∷ ss) =
    is_listed-insert_string p s (sort_strings ss)
    ∙ ap (λ b. str_eq s p || b) (is_listed-sort_strings p ss)

pub is_listed-ids_of :
    (p a : Bytes) (peers : List (Bytes × Bytes))
    → http_address p peers ≡ some a
    → is_listed p (ids_of peers) ≡ true
is_listed-ids_of p a [] h = absurd (let q = h in cc)
is_listed-ids_of p a (q ∷ qs) h = elim (Bool-cases (str_eq q.0 p)) [
  | inl same ↦ rw same refl
  | inr differs ↦ rw differs (is_listed-ids_of p a qs (rw differs at h))
]
