-- ===== src/Log/Keeps.antt =====
-- raft/log.go: every operation of the log keeps its shape and what is committed.
use raftly.Common.{
  ℕ, suc, ◌+◌, ◌≤◌, ◌≡◌, List, some, length, take, length-append, length-take, take-take_of_le,
  take_of_le-append, arith,
}
use raftly.Log.{LogEntry, RaftLog, append, commit_to, truncate_from}
use raftly.Log.Shape.{Contiguous, IsWellFormed, Contiguous-append, Contiguous-take}

-- The sentinel and the committed entries.
abbrev pub committed : RaftLog → List LogEntry
committed l = take (suc l.commit_index) l.entries

pub append-IsWellFormed :
    {l : RaftLog} (es : List LogEntry)
    → IsWellFormed l
    → Contiguous (length l.entries) es
    → IsWellFormed (append l es)
unfolding append
append-IsWellFormed {l} es w c = record {
  contiguous =
      Contiguous-append 0 l.entries es w.contiguous
        (rw (let z : 0 + length l.entries ≡ length l.entries = omega arith in z) c);
  commit_bound = omega (arith, w.commit_bound, length-append l.entries es);
  applied_bound = w.applied_bound;
}

pub commit_to-IsWellFormed :
    {l l' : RaftLog} (i : ℕ) → IsWellFormed l → commit_to l i ≡ some l' → IsWellFormed l'
unfolding commit_to
commit_to-IsWellFormed i w e = ground arith

pub truncate_from-IsWellFormed :
    {l l' : RaftLog} (i : ℕ) → IsWellFormed l → truncate_from l i ≡ some l' → IsWellFormed l'
unfolding truncate_from
truncate_from-IsWellFormed {l} i w e =
    ground (arith, Contiguous-take 0 i l.entries w.contiguous, length-take i l.entries)

-- Appending, committing further and truncating leave every committed entry where it was.
pub committed-append :
    {l : RaftLog} (es : List LogEntry) → IsWellFormed l → committed (append l es) ≡ committed l
unfolding append
committed-append {l} es w =
    take_of_le-append (suc l.commit_index) l.entries es (omega (arith, w.commit_bound))

pub committed-truncate_from :
    (l : RaftLog) {l' : RaftLog} (i : ℕ)
    → truncate_from l i ≡ some l'
    → (l'.commit_index ≡ l.commit_index) × (committed l' ≡ committed l)
unfolding truncate_from
committed-truncate_from l i e = ground (arith, take-take_of_le (suc l.commit_index) i l.entries)

pub commit_to-Keeps :
    {l l' : RaftLog} (i : ℕ)
    → commit_to l i ≡ some l'
    → (l'.entries ≡ l.entries)
      × (l.commit_index ≤ l'.commit_index)
      × (l'.last_applied ≡ l.last_applied)
unfolding commit_to
commit_to-Keeps i e = ground arith
