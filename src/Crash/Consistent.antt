-- ===== src/Crash/Consistent.antt =====
-- scenarios/scenario.go: what `NodesConsistent` says.
use mathlib.Core.Path.{subst}
use raftly.Common.{
  ℕ, ◌≡◌, ◌↔◌, refl, sym, [], ◌∷◌, true, ◌==◌, All, Bool-cases, inl, inr, arith, Bytes,
}
use raftly.Node.{Node}
use raftly.Lifecycle.{status}
use raftly.Cluster.{Registry}
use raftly.Crash.{all_at, nodes_consistent}

-- The nodes all have one commit index.
abbrev pub HaveCommitted : ℕ → Registry → Type 0
HaveCommitted index nodes = All (λ (p : Bytes × Node). p.1.log.commit_index ≡ index) nodes

all_at_iff :
    (first : ℕ) (nodes : Registry) → (all_at first nodes ≡ true) ↔ HaveCommitted first nodes
unfolding status
all_at_iff first [] = (λ _. tt, λ _. refl)
all_at_iff first (p ∷ ps) =
    let (there, back) = all_at_iff first ps in
    elim (Bool-cases (p.1.log.commit_index == first)) [
      | inl same ↦
          (λ h. ((let q = h in ground arith), there (rw same at h)), λ h. rw same (back h.1))
      | inr differs ↦
          (λ h. absurd (let q = rw differs at h in cc), λ h. absurd (let q = h.0 in ground arith))
    ]

-- It is true exactly when some index is the commit index of every node, and so for no nodes.
nodes_consistent_iff :
    (nodes : Registry) → (nodes_consistent nodes ≡ true) ↔ ((index : ℕ) × HaveCommitted index nodes)
unfolding nodes_consistent status
nodes_consistent_iff [] = (λ _. (0, tt), λ _. refl)
nodes_consistent_iff (p ∷ ps) =
    let (there, back) = all_at_iff p.1.log.commit_index ps in
    (
      λ h. (p.1.log.commit_index, (refl, there h)),
      λ h. back (subst (λ i. HaveCommitted i ps) (sym h.1.0) h.1.1),
    )
