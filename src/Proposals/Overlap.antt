-- ===== src/Proposals/Overlap.antt =====
-- raft/replication.go: two goroutines in `applyCommitted` at once. The lock is given up between
-- the collecting and the sending, and each commit and each heartbeat starts such a goroutine.
use raftly.Common.{◌^◌, ◌<◌, ◌≡◌, ◌∙◌, ◌++◌, append_assoc, length, arith}
use raftly.Log.Shape.{IsWellFormed}
use raftly.Node.{Node}
use raftly.Proposals.{unapplied, deliver_all}
use raftly.Proposals.Applied.{
  pending, pending-Contiguous, length-pending, unapplied_lem, deliver_all-Delivered, delivered_last,
}

-- Two goroutines collect before either sends: the application gets every entry twice.
overlap_delivers_twice :
    (n : Node)
    → IsWellFormed n.log
    → length n.log.entries < 2 ^ 64
    → (deliver_all (unapplied n) (deliver_all (unapplied n) n)).commit_ch
      ≡ n.commit_ch ++ (pending n ++ pending n)
overlap_delivers_twice n w small =
    let d = deliver_all-Delivered (pending n) n in
    let again = deliver_all-Delivered (pending n) (deliver_all (pending n) n) in
    rw (unapplied_lem n w small)
      (again.channel ∙ rw d.channel (append_assoc n.commit_ch (pending n) (pending n)))

-- A goroutine collects in one state, and sends in a later one in which others have applied more:
-- the application gets old entries after newer ones, and `lastApplied` moves back, to the commit
-- index of the old state.
pub late_delivery_moves_back :
    (n m : Node)
    → IsWellFormed n.log
    → length n.log.entries < 2 ^ 64
    → n.log.last_applied < n.log.commit_index
    → n.log.commit_index < m.log.last_applied
    → ((deliver_all (unapplied n) m).commit_ch ≡ m.commit_ch ++ pending n)
      × ((deliver_all (unapplied n) m).log.last_applied ≡ n.log.commit_index)
      × ((deliver_all (unapplied n) m).log.last_applied < m.log.last_applied)
late_delivery_moves_back n m w small some_left later =
    let last =
      delivered_last n.log.last_applied (pending n) m (omega (arith, length-pending n w))
        (pending-Contiguous n w) in
    rw (unapplied_lem n w small) (
      (deliver_all-Delivered (pending n) m).channel,
      omega (arith, last, length-pending n w),
      omega (arith, last, length-pending n w),
    )
