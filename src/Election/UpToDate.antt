-- ===== src/Election/UpToDate.antt =====
-- raft/election.go: `logIsUpToDate` and the method `isLogUpToDate`.
use raftly.Common.{ℕ, ◌≤◌, ◌<◌, ◌≡◌, ◌↔◌, ◌⊎◌, true, arith}
use raftly.Log.{last_index, last_term}
use raftly.Node.{Node}
use raftly.Election.{log_is_up_to_date, is_log_up_to_date}

-- The function orders logs by last term and then by last index.
log_is_up_to_date_iff :
    (t i t' i' : ℕ) → (log_is_up_to_date t i t' i' ≡ true) ↔ ((t' < t) ⊎ ((t ≡ t') × (i' ≤ i)))
unfolding log_is_up_to_date
log_is_up_to_date_iff t i t' i' = ground arith

-- The method is the function at the node's own last entry.
is_log_up_to_date-eq :
    (n : Node) (t i : ℕ)
    → is_log_up_to_date n t i ≡ log_is_up_to_date t i (last_term n.log) (last_index n.log)
unfolding is_log_up_to_date log_is_up_to_date
is_log_up_to_date-eq n t i = ground arith

-- Of two logs one is up to date with the other; and to be up to date is transitive.
log_is_up_to_date_preorder :
    (t i t' i' t'' i'' : ℕ)
    → ((log_is_up_to_date t i t' i' ≡ true) ⊎ (log_is_up_to_date t' i' t i ≡ true))
      × (log_is_up_to_date t i t' i' ≡ true
          → log_is_up_to_date t' i' t'' i'' ≡ true
          → log_is_up_to_date t i t'' i'' ≡ true)
unfolding log_is_up_to_date
log_is_up_to_date_preorder t i t' i' t'' i'' = (ground arith, λ h g. ground arith)
