-- ===== src/Leader/Majority.antt =====
-- raft/election.go: `quorum`, and raft/replication.go: the index that `maybeCommit` finds.
use mathlib.Core.Path.{subst}
use raftly.Common.{
  ℕ, suc, ◌+◌, ◌-◌, ◌≤◌, ◌<◌, ◌≡◌, refl, sym, List, [], ◌∷◌, map, Bool, true, length, get_elem?,
  get_elem?-le_length, Option-cases, Bool-cases, inl, inr, if◌then◌else◌, arith,
}
use raftly.Node.{Node, Peer, quorum}
use raftly.Leader.{sort, match_indexes, quorum_match_index}
use raftly.Leader.Sorted.{count_ge, length-sort, sort_position}

length-map {ℓ κ} :
    {A : Type ℓ} {B : Type κ} (f : A → B) (xs : List A) → length (map f xs) ≡ length xs
length-map f [] = refl
length-map f (x ∷ xs) = omega (arith, length-map f xs)

-- More than half of the cluster, and not more than all of it.
quorum_bounds :
    (n : Node) → (length n.peers + 1 < quorum n + quorum n) × (quorum n ≤ length n.peers + 1)
unfolding quorum
quorum_bounds n = omega arith

-- The index that the leader finds in the sorted list is held by a quorum of the cluster, itself
-- included, and no higher index is.
pub quorum_match_index_lem :
    (n : Node)
    → (quorum n ≤ count_ge (quorum_match_index n) (match_indexes n))
      × ((v : ℕ) → quorum_match_index n < v → count_ge v (match_indexes n) < quorum n)
unfolding quorum_match_index
quorum_match_index_lem n =
    elim (Option-cases (get_elem? (sort (match_indexes n)) (length (match_indexes n) - quorum n))) [
      | inl missing ↦ absurd (
          omega (
            arith,
            get_elem?-le_length (sort (match_indexes n)) _ missing,
            length-sort (match_indexes n),
            size,
            quorum_bounds n,
          ))
      | inr (m, found) ↦
          let (enough, few) = sort_position (match_indexes n) _ found in
          let e : quorum_match_index n ≡ m = rw (quorum_match_index, found) refl in
          subst
            (λ i.
              (quorum n ≤ count_ge i (match_indexes n))
              × ((v : ℕ) → i < v → count_ge v (match_indexes n) < quorum n))
            (sym e)
            (
              omega (arith, enough, size, quorum_bounds n),
              λ v lt. omega (arith, few v lt, size, quorum_bounds n),
            )
    ]
  where
    size : length (match_indexes n) ≡ length n.peers + 1
    size = omega (arith, length-map (λ (p : Peer). p.match_index) n.peers)

-- The members that a set holds.
abbrev pub count {ℓ} : {A : Type ℓ} → (A → Bool) → List A → ℕ
count p [] = 0
count p (x ∷ xs) = let rest = count p xs in if p x then suc rest else rest

meet {ℓ} :
    {A : Type ℓ} (p q : A → Bool) (xs : List A)
    → length xs < count p xs + count q xs
    → (x : A) × (p x ≡ true) × (q x ≡ true)
meet p q [] h = absurd (omega arith)
meet p q (x ∷ xs) h = elim (Bool-cases (p x)) [
  | inl a ↦ elim (Bool-cases (q x)) [ inl b ↦ (x, a, b) | inr b ↦ meet p q xs (ground arith) ]
  | inr a ↦ meet p q xs (ground arith)
]

-- Two quorums of one cluster have a member in common: of the voters of two elections, or of an
-- election and the holders of a committed entry.
pub quorums_meet {ℓ} :
    {A : Type ℓ} (n : Node) (members : List A) (p q : A → Bool)
    → length members ≡ length n.peers + 1
    → quorum n ≤ count p members
    → quorum n ≤ count q members
    → (x : A) × (p x ≡ true) × (q x ≡ true)
quorums_meet n members p q size hp hq = meet p q members (omega (arith, quorum_bounds n))
