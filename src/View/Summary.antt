-- ===== src/View/Summary.antt =====
-- server/api.go: the nodes, the term and the leader of a snapshot.
use mathlib.Core.List.{Perm}
use mathlib.Core.List.Perm
use raftly.Common.{
  map, ℕ, ◌≤◌, ◌≡◌, ◌⊎◌, refl, ap, List, [], ◌∷◌, ◌++◌, Option, true, false, Bytes, ltb, str_eq,
  str_eq_iff, if◌then◌else◌, All, Bool-cases, inl, inr, arith,
}
use raftly.Node.{Node}
use raftly.Http.{Delivery, str_lt, insert_string, sort_strings, ids_of}
use raftly.View.{
  NodeView, ClusterView, insert_view, view_of, views, leader_name, led_by, highest_term,
  fetch_cluster_snapshot,
}

abbrev pub IsLeader : NodeView → Type 0
IsLeader v = v.state ≡ leader_name

highest_term-le : (t : ℕ) (vs : List NodeView) → t ≤ highest_term t vs
highest_term-le t [] = omega arith
highest_term-le t (v ∷ vs) =
    let ih = highest_term-le (if ltb t v.term then v.term else t) vs in ground arith

highest_term_bounds :
    (t : ℕ) (vs : List NodeView) → All (λ (v : NodeView). v.term ≤ highest_term t vs) vs
highest_term_bounds t [] = tt
highest_term_bounds t (v ∷ vs) =
    let t' = if ltb t v.term then v.term else t in
    let ih = highest_term-le t' vs in ((let q = ih in ground arith), highest_term_bounds t' vs)

-- The term is the one found before, or that of a view.
abbrev pub Attained : ℕ → List NodeView → ℕ → Type 0
Attained found_term vs t =
    (t ≡ found_term)
    ⊎ ((before : List NodeView) × (v : NodeView) × (after : List NodeView) × (vs
          ≡ before ++ (v ∷ after))
        × (t ≡ v.term))

highest_term-Attained : (t : ℕ) (vs : List NodeView) → Attained t vs (highest_term t vs)
highest_term-Attained t [] = inl refl
highest_term-Attained t (v ∷ vs) = elim (Bool-cases (ltb t v.term)) [
  | inl higher ↦ elim (highest_term-Attained v.term vs) [
    | inl own ↦ inr ([], v, vs, refl, rw higher own)
    | inr (before, w, after, split, is_w) ↦
        inr (v ∷ before, w, after, ap (λ t. v ∷ t) split, rw higher is_w)
  ]
  | inr lower ↦ elim (highest_term-Attained t vs) [
    | inl own ↦ inl (rw lower own)
    | inr (before, w, after, split, is_w) ↦
        inr (v ∷ before, w, after, ap (λ t. v ∷ t) split, rw lower is_w)
  ]
]

-- The last of the views that is a leader's, if there is one.
abbrev pub LastLeader : Bytes → List NodeView → Bytes → Type 0
LastLeader found_id vs id =
    ((id ≡ found_id) × All (λ v. str_eq v.state leader_name ≡ false) vs)
    ⊎ ((before : List NodeView) × (v : NodeView) × (after : List NodeView) × (vs
          ≡ before ++ (v ∷ after))
        × IsLeader v
        × (id ≡ v.id)
        × All (λ w. str_eq w.state leader_name ≡ false) after)

led_by-LastLeader :
    (found_id : Bytes) (vs : List NodeView) → LastLeader found_id vs (led_by found_id vs)
led_by-LastLeader found_id [] = inl (refl, tt)
led_by-LastLeader found_id (v ∷ vs) = elim (Bool-cases (str_eq v.state leader_name)) [
  | inl leads ↦ elim (led_by-LastLeader v.id vs) [
    | inl (is_v, none_after) ↦
        inr ([], v, vs, refl, (str_eq_iff v.state leader_name).0 leads, rw leads is_v, none_after)
    | inr (before, w, after, split, is_leader, is_w, none_after) ↦
        inr (v ∷ before, w, after, ap (λ t. v ∷ t) split, is_leader, rw leads is_w, none_after)
  ]
  | inr follows ↦ elim (led_by-LastLeader found_id vs) [
    | inl (is_found, none_after) ↦ inl (rw follows is_found, (follows, none_after))
    | inr (before, w, after, split, is_leader, is_w, none_after) ↦
        inr (v ∷ before, w, after, ap (λ t. v ∷ t) split, is_leader, rw follows is_w, none_after)
  ]
]

-- `<=` on strings.
str_lt_asymm : (s t : Bytes) → str_lt s t ≡ true → str_lt t s ≡ false
str_lt_asymm [] t h = refl
str_lt_asymm (c ∷ s) [] h = absurd (let q = h in cc)
str_lt_asymm (c ∷ s) (d ∷ t) h = let ih = str_lt_asymm s t in ground arith

str_le_trans : (s t u : Bytes) → str_lt t s ≡ false → str_lt u t ≡ false → str_lt u s ≡ false
str_le_trans [] t u a b = refl
str_le_trans (c ∷ s) [] u a b = absurd (let q = a in cc)
str_le_trans (c ∷ s) (d ∷ t) [] a b = absurd (let q = b in cc)
str_le_trans (c ∷ s) (d ∷ t) (e ∷ u) a b = let ih = str_le_trans s t u in ground arith

-- No later view has a lower ID.
abbrev pub Ordered : List NodeView → Type 0
Ordered [] = Unit {0}
Ordered (v ∷ vs) = All (λ w. str_lt w.id v.id ≡ false) vs × Ordered vs

insert_view-All :
    (P : NodeView → Type 0) (v : NodeView) (ws : List NodeView)
    → P v
    → All P ws
    → All P (insert_view v ws)
insert_view-All P v [] here rest = (here, tt)
insert_view-All P v (w ∷ ws) here rest = elim (Bool-cases (str_lt w.id v.id)) [
  | inl lower ↦ rw lower (rest.0, insert_view-All P v ws here rest.1)
  | inr not_lower ↦ rw not_lower (here, rest)
]

below :
    (v w : NodeView) (ws : List NodeView)
    → str_lt w.id v.id ≡ false
    → All (λ x. str_lt x.id w.id ≡ false) ws
    → All (λ x. str_lt x.id v.id ≡ false) ws
below v w [] le rest = tt
below v w (x ∷ xs) le rest = (str_le_trans v.id w.id x.id le rest.0, below v w xs le rest.1)

insert_view-Ordered : (v : NodeView) (ws : List NodeView) → Ordered ws → Ordered (insert_view v ws)
insert_view-Ordered v [] sorted = (tt, tt)
insert_view-Ordered v (w ∷ ws) sorted = elim (Bool-cases (str_lt w.id v.id)) [
  | inl lower ↦ rw lower (
    insert_view-All _ v ws (str_lt_asymm w.id v.id lower) sorted.0,
    insert_view-Ordered v ws sorted.1,
  )
  | inr not_lower ↦ rw not_lower ((not_lower, below v w ws not_lower sorted.0), sorted)
]

insert_view-Perm : (v : NodeView) (ws : List NodeView) → Perm (insert_view v ws) (v ∷ ws)
insert_view-Perm v [] = Perm.rfl
insert_view-Perm v (w ∷ ws) = elim (Bool-cases (str_lt w.id v.id)) [
  | inl lower ↦ rw lower (Perm.trans (Perm.cons w (insert_view-Perm v ws)) (Perm.swap v w ws))
  | inr not_lower ↦ rw not_lower Perm.rfl
]

insert_string-Perm : (s : Bytes) (ts : List Bytes) → Perm (insert_string s ts) (s ∷ ts)
insert_string-Perm s [] = Perm.rfl
insert_string-Perm s (t ∷ ts) = elim (Bool-cases (str_lt t s)) [
  | inl lower ↦ rw lower (Perm.trans (Perm.cons t (insert_string-Perm s ts)) (Perm.swap s t ts))
  | inr not_lower ↦ rw not_lower Perm.rfl
]

sort_strings-Perm : (ss : List Bytes) → Perm (sort_strings ss) ss
sort_strings-Perm [] = Perm.rfl
sort_strings-Perm (s ∷ ss) =
    Perm.trans (insert_string-Perm s (sort_strings ss)) (Perm.cons s (sort_strings-Perm ss))

module _ (net : Bytes → Delivery) (servers : Bytes → Option Node) (n : Node)
    (http_peers : List (Bytes × Bytes)) where
  views-Ordered : (ids : List Bytes) → Ordered (views net servers n http_peers ids)
  views-Ordered [] = tt
  views-Ordered (id ∷ ids) = insert_view-Ordered _ _ (views-Ordered ids)

  views-Perm :
      (ids : List Bytes)
      → Perm (views net servers n http_peers ids) (map (view_of net servers n http_peers) ids)
  views-Perm [] = Perm.rfl
  views-Perm (id ∷ ids) = Perm.trans (insert_view-Perm _ _) (Perm.cons _ (views-Perm ids))

-- A summary of the views of a cluster's nodes.
pub record IsSummary (of_peers : List NodeView) (s : ClusterView) : Type 0 where
  pub complete : Perm s.nodes of_peers
  pub ordered : Ordered s.nodes
  pub term_bounds : All (λ (v : NodeView). v.term ≤ s.term) s.nodes
  pub term_attained : Attained 0 s.nodes s.term
  pub leader : LastLeader [] s.nodes s.leader_id

-- A snapshot has the view of each peer, ordered by the IDs. Its term is the highest of their terms,
-- or 0 without peers. Its leader is the last node in that order whose view says that it leads,
-- whatever its term, or the empty ID if no view says so.
pub snapshot_lem :
    (net : Bytes → Delivery) (servers : Bytes → Option Node) (n : Node)
    (http_peers : List (Bytes × Bytes))
    → IsSummary
        (map (view_of net servers n http_peers) (ids_of http_peers))
        (fetch_cluster_snapshot net servers n http_peers)
unfolding fetch_cluster_snapshot
snapshot_lem net servers n http_peers =
    let ids = sort_strings (ids_of http_peers) in
    let nodes = views net servers n http_peers ids in
    record {
      complete =
          Perm.trans (views-Perm net servers n http_peers ids)
            (Perm.map (view_of net servers n http_peers) (sort_strings-Perm (ids_of http_peers)));
      ordered = views-Ordered net servers n http_peers ids;
      term_bounds = highest_term_bounds 0 nodes;
      term_attained = highest_term-Attained 0 nodes;
      leader = led_by-LastLeader [] nodes;
    }
