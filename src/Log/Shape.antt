-- ===== src/Log/Shape.antt =====
-- raft/log.go: the shape of a log. The entry at position i has index i, the commit index is the
-- index of an entry, and nothing is applied beyond it.
use raftly.Common.{
  ℕ, zero, suc, ◌+◌, ◌≤◌, ◌<◌, ◌≡◌, List, [], ◌∷◌, ◌++◌, some, length, get_elem?, take, drop, arith,
}
use raftly.Log.{LogEntry, RaftLog, last_entry, last_index, get_entry, new_raft_log}

-- Indexes count up by one from `k`.
abbrev pub Contiguous : ℕ → List LogEntry → Type 0
Contiguous k [] = Unit {0}
Contiguous k (e ∷ es) = (e.index ≡ k) × Contiguous (suc k) es

pub record IsWellFormed (l : RaftLog) : Type 0 where
  pub contiguous : Contiguous 0 l.entries
  pub commit_bound : l.commit_index < length l.entries
  pub applied_bound : l.last_applied ≤ l.commit_index

pub Contiguous-append :
    (k : ℕ) (es fs : List LogEntry)
    → Contiguous k es
    → Contiguous (k + length es) fs
    → Contiguous k (es ++ fs)
Contiguous-append k [] fs h g = let e : k + 0 ≡ k = omega arith in rw e at g
Contiguous-append k (e ∷ es) fs h g =
    let s : k + suc (length es) ≡ suc k + length es = omega arith in
    (h.0, Contiguous-append (suc k) es fs h.1 (rw s at g))

pub Contiguous-take : (k n : ℕ) (es : List LogEntry) → Contiguous k es → Contiguous k (take n es)
Contiguous-take k zero es h = tt
Contiguous-take k (suc n) [] h = tt
Contiguous-take k (suc n) (e ∷ es) h = (h.0, Contiguous-take (suc k) n es h.1)

pub Contiguous-drop :
    (k n : ℕ) (es : List LogEntry) → Contiguous k es → Contiguous (k + n) (drop n es)
Contiguous-drop k zero es h = let e : k + 0 ≡ k = omega arith in rw e h
Contiguous-drop k (suc n) [] h = tt
Contiguous-drop k (suc n) (e ∷ es) h =
    let s : k + suc n ≡ suc k + n = omega arith in rw s (Contiguous-drop (suc k) n es h.1)

pub Contiguous-get_elem? :
    (k i : ℕ) (es : List LogEntry) {e : LogEntry}
    → Contiguous k es
    → get_elem? es i ≡ some e
    → e.index ≡ k + i
Contiguous-get_elem? k i [] h g = ground arith
Contiguous-get_elem? k zero (f ∷ es) h g = ground arith
Contiguous-get_elem? k (suc i) (f ∷ es) h g = omega (arith, Contiguous-get_elem? (suc k) i es h.1 g)

last_entry-Contiguous :
    (k : ℕ) (es : List LogEntry)
    → Contiguous k es
    → 0 < length es
    → (last_entry es).index + 1 ≡ k + length es
last_entry-Contiguous k [] h p = absurd (omega arith)
last_entry-Contiguous k (e ∷ []) h p = omega (arith, h.0)
last_entry-Contiguous k (e ∷ f ∷ es) h p =
    omega (arith, last_entry-Contiguous (suc k) (f ∷ es) h.1 (omega arith))

-- The last index is the number of entries after the sentinel.
pub last_index-length : {l : RaftLog} → IsWellFormed l → last_index l + 1 ≡ length l.entries
unfolding last_index
last_index-length {l} w =
    omega (arith, last_entry-Contiguous 0 l.entries w.contiguous, w.commit_bound)

pub get_entry-index :
    {l : RaftLog} (i : ℕ) {e : LogEntry} → IsWellFormed l → get_entry l i ≡ some e → e.index ≡ i
unfolding get_entry
get_entry-index {l} i w g = omega (arith, Contiguous-get_elem? 0 i l.entries w.contiguous g)

pub new_raft_log-IsWellFormed : IsWellFormed new_raft_log
unfolding new_raft_log
new_raft_log-IsWellFormed = omega arith
