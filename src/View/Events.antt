-- ===== src/View/Events.antt =====
-- server/api.go: a client that follows the events of nodes knows who is reachable.
use mathlib.Core.Path.{subst}
use raftly.Common.{
  ◌≡◌, refl, sym, ◌∙◌, ap, List, [], ◌∷◌, ◌++◌, Option, none, some, Bool, true, false, not, ◌&&◌,
  Bytes, ltb, str_eq, str_eq_refl, str_eq_iff, if◌then◌else◌, All, Bool-cases, Option-cases, inl,
  inr, arith,
}
use raftly.View.{
  NodeView, ClusterView, Event, status_event, leader_change, term_change, node_down, node_up,
  earlier, changed, node_events, tick_events, ticks, handle_events,
}

-- A client that keeps who is reachable.
abbrev pub Known : Type 0
Known = Bytes → Bool

abbrev pub follow : Event → Known → Known
follow (status_event v) f k = f k
follow (leader_change from to) f k = f k
follow (term_change from to) f k = f k
follow (node_down id) f k = if str_eq id k then false else f k
follow (node_up id) f k = if str_eq id k then true else f k

abbrev pub follow_all : List Event → Known → Known
follow_all [] f = f
follow_all (e ∷ es) f = follow_all es (follow e f)

follow_all-append :
    (xs ys : List Event) (f : Known) → follow_all (xs ++ ys) f ≡ follow_all ys (follow_all xs f)
follow_all-append [] ys f = refl
follow_all-append (x ∷ xs) ys f = follow_all-append xs ys (follow x f)

abbrev pub Distinct : List NodeView → Type 0
Distinct [] = Unit {0}
Distinct (v ∷ vs) = All (λ w. str_eq w.id v.id ≡ false) vs × Distinct vs

changed_other :
    (id k : Bytes) (p : Option NodeView) (now : Bool) (f : Known)
    → str_eq id k ≡ false
    → follow_all (changed id p now) f k ≡ f k
changed_other id k none now f other = refl
changed_other id k (some p) now f other = ground arith

changed_own :
    (k : Bytes) (p : NodeView) (now : Bool) (f : Known)
    → f k ≡ p.reachable
    → follow_all (changed k (some p) now) f k ≡ now
changed_own k p now f known = ground (arith, str_eq_refl k)

elsewhere :
    (prev ns : List NodeView) (k : Bytes) (f : Known)
    → All (λ w. str_eq w.id k ≡ false) ns
    → follow_all (node_events prev ns) f k ≡ f k
unfolding node_events
elsewhere prev [] k f others = refl
elsewhere prev (n ∷ ns) k f (other, others) =
    let es = changed n.id (earlier n.id prev) n.reachable in
    ap (λ g. g k) (follow_all-append es (node_events prev ns) f)
    ∙ elsewhere prev ns k (follow_all es f) others
    ∙ changed_other n.id k (earlier n.id prev) n.reachable f other

no_earlier :
    (k : Bytes) (ns : List NodeView) → All (λ w. str_eq w.id k ≡ false) ns → earlier k ns ≡ none
no_earlier k [] others = refl
no_earlier k (n ∷ ns) (other, others) = rw (no_earlier k ns others, other) refl

followed :
    (prev ns : List NodeView) (k : Bytes) (f : Known) (p v : NodeView)
    → Distinct ns
    → earlier k prev ≡ some p
    → f k ≡ p.reachable
    → earlier k ns ≡ some v
    → follow_all (node_events prev ns) f k ≡ v.reachable
unfolding node_events
followed prev [] k f p v distinct before known there = absurd (let q = there in cc)
followed prev (n ∷ ns) k f p v (apart, distinct) before known there =
    let es = changed n.id (earlier n.id prev) n.reachable in
    let step = ap (λ g. g k) (follow_all-append es (node_events prev ns) f) in
    elim (Bool-cases (str_eq n.id k)) [
      | inl here ↦
          let is_k : n.id ≡ k = (str_eq_iff n.id k).0 here in
          let others : All (λ w. str_eq w.id k ≡ false) ns =
            subst (λ t. All (λ w. str_eq w.id t ≡ false) ns) is_k apart in
          let is_v : n ≡ v = (let q = rw (no_earlier k ns others, here) at there in cc) in
          let own : follow_all es f k ≡ n.reachable =
            ap (λ t. follow_all (changed t (earlier t prev) n.reachable) f k) is_k
            ∙ rw before (changed_own k p n.reachable f known) in
          step
          ∙ elsewhere prev ns k (follow_all es f) others
          ∙ own
          ∙ ap (λ (w : NodeView). w.reachable) is_v
      | inr other ↦
          let later : earlier k ns ≡ some v = elim (Option-cases (earlier k ns)) [
            | inl nothing ↦ absurd (let q = rw (nothing, other) at there in cc)
            | inr (w, found_w) ↦ found_w ∙ (let q = rw found_w at there in q)
          ] in
          let kept = changed_other n.id k (earlier n.id prev) n.reachable f other in
          step ∙ followed prev ns k (follow_all es f) p v distinct before (kept ∙ known) later
    ]

if_follow :
    (b : Bool) (e : Event) (f : Known)
    → ((g : Known) → follow e g ≡ g)
    → follow_all (if b then e ∷ [] else []) f ≡ f
if_follow true e f neutral = neutral f
if_follow false e f neutral = refl

tick_follow :
    (prev curr : ClusterView) (f : Known)
    → follow_all (tick_events prev curr) f ≡ follow_all (node_events prev.nodes curr.nodes) f
unfolding tick_events
tick_follow prev curr f =
    let led =
      if not (str_eq curr.leader_id prev.leader_id) && not (str_eq curr.leader_id [])
      then leader_change prev.leader_id curr.leader_id ∷ []
      else [] in
    let rose = if ltb prev.term curr.term then term_change prev.term curr.term ∷ [] else [] in
    follow_all-append led (rose ++ node_events prev.nodes curr.nodes) f
    ∙ ap (follow_all (rose ++ node_events prev.nodes curr.nodes))
        (if_follow _ (leader_change prev.leader_id curr.leader_id) f (λ g. refl))
    ∙ follow_all-append rose (node_events prev.nodes curr.nodes) f
    ∙ ap (follow_all (node_events prev.nodes curr.nodes))
        (if_follow _ (term_change prev.term curr.term) f (λ g. refl))

-- The snapshot has the node, and one view for each ID.
abbrev pub Covers : Bytes → ClusterView → Type 0
Covers k c = Distinct c.nodes × ((v : NodeView) × (earlier k c.nodes ≡ some v))

abbrev pub latest : ClusterView → List ClusterView → ClusterView
latest first [] = first
latest first (c ∷ later) = latest c later

abbrev pub reachable_in : Option NodeView → Bool
reachable_in none = false
reachable_in (some v) = v.reachable

ticks_followed :
    (k : Bytes) (f : Known) (prev : ClusterView) (later : List ClusterView)
    → Covers k prev
    → f k ≡ reachable_in (earlier k prev.nodes)
    → All (Covers k) later
    → follow_all (ticks prev later) f k ≡ reachable_in (earlier k (latest prev later).nodes)
ticks_followed k f prev [] covers known all = known
ticks_followed k f prev (c ∷ later) (distinct, (p, before)) known ((distinct_c, (v, there)), all) =
    let es = tick_events prev c in
    let now : follow_all es f k ≡ v.reachable =
      ap (λ g. g k) (tick_follow prev c f)
      ∙ followed prev.nodes c.nodes k f p v distinct_c before (known ∙ ap reachable_in before)
          there in
    ap (λ g. g k) (follow_all-append es (ticks c later) f)
    ∙ ticks_followed k (follow_all es f) c later (distinct_c, (v, there))
        (now ∙ sym (ap reachable_in there)) all

-- Every snapshot of a stream has a view of the node and one view for each ID. A client that knows
-- from the first one whether the node is reachable, and after that follows the events alone, knows
-- after any number of them what the latest snapshot says of the node.
pub events_tell_reachable :
    (k : Bytes) (f : Known) (first : ClusterView) (later : List ClusterView)
    → Covers k first
    → f k ≡ reachable_in (earlier k first.nodes)
    → All (Covers k) later
    → follow_all (handle_events first later) f k
      ≡ reachable_in (earlier k (latest first later).nodes)
unfolding handle_events
events_tell_reachable k f first later covers known all =
    ticks_followed k f first later covers known all
