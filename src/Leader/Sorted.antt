-- ===== src/Leader/Sorted.antt =====
-- raft/replication.go: the sort in `maybeCommit`, and what the element at a position of its result
-- says about how many elements reach it.
use mathlib.Core.Path.{subst}
use raftly.Common.{
  ℕ, zero, suc, ◌+◌, ◌-◌, ◌≤◌, ◌<◌, ◌≡◌, refl, List, [], ◌∷◌, some, length, get_elem?, All, leb,
  Bool-cases, inl, inr, if◌then◌else◌, arith,
}
use raftly.Leader.{insert_sorted, sort}

-- How many elements are at least `v`.
abbrev pub count_ge : ℕ → List ℕ → ℕ
count_ge v [] = 0
count_ge v (x ∷ xs) = let rest = count_ge v xs in if leb v x then suc rest else rest

abbrev Ascending : List ℕ → Type 0
Ascending [] = Unit {0}
Ascending (x ∷ xs) = All (λ y. x ≤ y) xs × Ascending xs

count_ge-insert_sorted :
    (v x : ℕ) (ys : List ℕ) → count_ge v (insert_sorted x ys) ≡ count_ge v (x ∷ ys)
unfolding insert_sorted
count_ge-insert_sorted v x [] = refl
count_ge-insert_sorted v x (y ∷ ys) = ground (arith, count_ge-insert_sorted v x ys)

count_ge-sort : (v : ℕ) (xs : List ℕ) → count_ge v (sort xs) ≡ count_ge v xs
unfolding sort
count_ge-sort v [] = refl
count_ge-sort v (x ∷ xs) = ground (arith, count_ge-insert_sorted v x (sort xs), count_ge-sort v xs)

length-insert_sorted : (x : ℕ) (ys : List ℕ) → length (insert_sorted x ys) ≡ suc (length ys)
unfolding insert_sorted
length-insert_sorted x [] = refl
length-insert_sorted x (y ∷ ys) = ground (arith, length-insert_sorted x ys)

pub length-sort : (xs : List ℕ) → length (sort xs) ≡ length xs
unfolding sort
length-sort [] = refl
length-sort (x ∷ xs) = omega (arith, length-insert_sorted x (sort xs), length-sort xs)

All-le_trans : (a b : ℕ) (ys : List ℕ) → a ≤ b → All (λ y. b ≤ y) ys → All (λ y. a ≤ y) ys
All-le_trans a b [] h g = tt
All-le_trans a b (y ∷ ys) h g = (omega arith, All-le_trans a b ys h g.1)

All-insert_sorted :
    (a x : ℕ) (ys : List ℕ) → a ≤ x → All (λ y. a ≤ y) ys → All (λ y. a ≤ y) (insert_sorted x ys)
unfolding insert_sorted
All-insert_sorted a x [] h g = (h, tt)
All-insert_sorted a x (y ∷ ys) h g = elim (Bool-cases (leb x y)) [
  | inl le ↦ rw (le, insert_sorted) (h, g)
  | inr gt ↦ rw (gt, insert_sorted) (g.0, All-insert_sorted a x ys h g.1)
]

insert_sorted-Ascending : (x : ℕ) (ys : List ℕ) → Ascending ys → Ascending (insert_sorted x ys)
unfolding insert_sorted
insert_sorted-Ascending x [] a = (tt, tt)
insert_sorted-Ascending x (y ∷ ys) a = elim (Bool-cases (leb x y)) [
  | inl le ↦ rw (le, insert_sorted) (((ground arith), All-le_trans x y ys (ground arith) a.0), a)
  | inr gt ↦
      rw (gt, insert_sorted)
        (All-insert_sorted y x ys (ground arith) a.0, insert_sorted-Ascending x ys a.1)
]

sort-Ascending : (xs : List ℕ) → Ascending (sort xs)
unfolding sort
sort-Ascending [] = tt
sort-Ascending (x ∷ xs) = insert_sorted-Ascending x (sort xs) (sort-Ascending xs)

All-get_elem? :
    (a : ℕ) (ys : List ℕ) (i : ℕ) {m : ℕ} → All (λ y. a ≤ y) ys → get_elem? ys i ≡ some m → a ≤ m
All-get_elem? a [] i h g = absurd (cc)
All-get_elem? a (y ∷ ys) zero h g = ground arith
All-get_elem? a (y ∷ ys) (suc i) h g = All-get_elem? a ys i h.1 g

count_ge-le : (v : ℕ) (ys : List ℕ) → count_ge v ys ≤ length ys
count_ge-le v [] = omega arith
count_ge-le v (y ∷ ys) = ground (arith, count_ge-le v ys)

count_ge-All : (v : ℕ) (ys : List ℕ) → All (λ y. v ≤ y) ys → count_ge v ys ≡ length ys
count_ge-All v [] h = refl
count_ge-All v (y ∷ ys) h = ground (arith, count_ge-All v ys h.1)

reach_from :
    (ys : List ℕ) (i : ℕ) {m : ℕ}
    → Ascending ys
    → get_elem? ys i ≡ some m
    → length ys - i ≤ count_ge m ys
reach_from [] i a g = omega arith
reach_from (y ∷ ys) zero {m} a g =
    let e : y ≡ m = ground arith in
    ground (arith, count_ge-All m ys (subst (λ v. All (λ z. v ≤ z) ys) e a.0))
reach_from (y ∷ ys) (suc i) a g = ground (arith, reach_from ys i a.1 g)

reach_above :
    (ys : List ℕ) (i v : ℕ) {m : ℕ}
    → Ascending ys
    → get_elem? ys i ≡ some m
    → m < v
    → count_ge v ys + suc i ≤ length ys
reach_above [] i v a g lt = absurd (cc)
reach_above (y ∷ ys) zero v a g lt = ground (arith, count_ge-le v ys)
reach_above (y ∷ ys) (suc i) v a g lt =
    ground (arith, reach_above ys i v a.1 g lt, All-get_elem? y ys i a.0 g)

-- The element at position `i` of the sorted list: all from there on reach it, and fewer reach more.
pub sort_position :
    (xs : List ℕ) (i : ℕ) {m : ℕ}
    → get_elem? (sort xs) i ≡ some m
    → (length xs - i ≤ count_ge m xs) × ((v : ℕ) → m < v → count_ge v xs + suc i ≤ length xs)
sort_position xs i {m} g = (
  omega (arith, length-sort xs, count_ge-sort m xs, reach_from (sort xs) i (sort-Ascending xs) g),
  λ v lt. omega (
    arith,
    length-sort xs,
    count_ge-sort v xs,
    reach_above (sort xs) i v (sort-Ascending xs) g lt,
  ),
)
