-- ===== src/Replication/Grown.antt =====
-- raft/replication.go: what the append loop of `handleAppendEntries` does to the log in memory.
use raftly.Common.{
  ℕ, suc, ◌≤◌, ◌≡◌, ◌∙◌, refl, sym, ap, List, [], ◌∷◌, none, some, Bool, true, false, length, take,
  length-take, take_of_le-append, take-take_of_le, get_elem?-lt_length, get_elem?-le_length, arith,
  Option-cases, Bool-cases, inl, inr, ◌==◌,
}
use raftly.Log
use raftly.Log.{LogEntry, RaftLog, get_entry, append}
use raftly.Log.Shape.{Contiguous, IsWellFormed}
use raftly.Log.Keeps.{append-IsWellFormed, truncate_from-IsWellFormed}
use raftly.Wal.Ops
use raftly.Node.{Node}
use raftly.Replication.{save_and_append, overwrite_log, overwrite, append_entries}

-- From `l` to `l'` nothing below `k` and nothing committed has changed.
pub record Grown (k : ℕ) (l l' : RaftLog) : Type 0 where
  pub well_formed : IsWellFormed l'
  pub committed_kept : take (suc l.commit_index) l'.entries ≡ take (suc l.commit_index) l.entries
  pub below_kept : take k l'.entries ≡ take k l.entries
  pub commit_of : l'.commit_index ≡ l.commit_index
  pub applied_of : l'.last_applied ≡ l.last_applied

pub Grown-refl : (k : ℕ) {l : RaftLog} → IsWellFormed l → Grown k l l
Grown-refl k w = record {
  well_formed = w;
  committed_kept = refl;
  below_kept = refl;
  commit_of = refl;
  applied_of = refl;
}

append-Grown :
    {l : RaftLog} (es : List LogEntry)
    → IsWellFormed l
    → Contiguous (length l.entries) es
    → Grown (length l.entries) l (append l es)
unfolding append
append-Grown {l} es w c = record {
  well_formed = append-IsWellFormed es w c;
  committed_kept =
      take_of_le-append (suc l.commit_index) l.entries es (omega (arith, w.commit_bound));
  below_kept = take_of_le-append (length l.entries) l.entries es (omega arith);
  commit_of = refl;
  applied_of = refl;
}

-- The result of saving, whatever the disk does: the old log or the longer one.
pub save_and_append-log :
    (es : List LogEntry) (n : Node)
    → ((save_and_append es n).1 ≡ true → (save_and_append es n).0.log ≡ append n.log es)
      × ((save_and_append es n).1 ≡ false → (save_and_append es n).0.log ≡ n.log)
unfolding save_and_append
save_and_append-log es n = ground arith

save_and_append-Grown :
    (es : List LogEntry) (n : Node)
    → IsWellFormed n.log
    → Contiguous (length n.log.entries) es
    → Grown (length n.log.entries) n.log (save_and_append es n).0.log
save_and_append-Grown es n w c = elim (Bool-cases (save_and_append es n).1) [
  | inl saved ↦ rw ((save_and_append-log es n).0 saved) (append-Grown es w c)
  | inr failed ↦ rw ((save_and_append-log es n).1 failed) (Grown-refl _ w)
]

pub truncate-Grown :
    (l : RaftLog) {l' : RaftLog} (k : ℕ)
    → IsWellFormed l
    → k ≤ length l.entries
    → Log.truncate_from l k ≡ some l'
    → (length l'.entries ≡ k) × Grown k l l'
unfolding Log.truncate_from
truncate-Grown l k w h e = (
  ground (arith, length-take k l.entries),
  record {
    well_formed = truncate_from-IsWellFormed k w e;
    committed_kept = ground (arith, take-take_of_le (suc l.commit_index) k l.entries);
    below_kept = ground (arith, take-take_of_le k k l.entries);
    commit_of = ground arith;
    applied_of = ground arith;
  },
)

Grown-trans : {k : ℕ} {l m r : RaftLog} → Grown k l m → Grown k m r → Grown k l r
Grown-trans f g = record {
  well_formed = g.well_formed;
  committed_kept = rw (← f.commit_of) (g.committed_kept) ∙ f.committed_kept;
  below_kept = g.below_kept ∙ f.below_kept;
  commit_of = g.commit_of ∙ f.commit_of;
  applied_of = g.applied_of ∙ f.applied_of;
}

overwrite_log-Grown :
    (k : ℕ) (e : LogEntry) (es : List LogEntry) (n : Node)
    → IsWellFormed n.log
    → Contiguous k (e ∷ es)
    → k ≤ length n.log.entries
    → Grown k n.log (overwrite_log e es n).0.log
unfolding overwrite_log
overwrite_log-Grown k e es n w c h = elim (Option-cases (Log.truncate_from n.log e.index)) [
  | inl refused ↦ rw (refused, overwrite_log) (Grown-refl k w)
  | inr (l, cut) ↦
      let (len, g) = truncate-Grown n.log k w h (rw c.0 at cut) in
      rw (cut, overwrite_log)
        (Grown-trans g (
          rw (← len)
            (save_and_append-Grown (e ∷ es) (record n { log = l }) g.well_formed (rw len c))))
]

overwrite-Grown :
    (k : ℕ) (e : LogEntry) (es : List LogEntry) (n : Node) {n' : Node} {done : Bool}
    → IsWellFormed n.log
    → Contiguous k (e ∷ es)
    → k ≤ length n.log.entries
    → overwrite e es n ≡ some (n', done)
    → Grown k n.log n'.log
unfolding overwrite
overwrite-Grown k e es n {n'} w c h q = elim (Option-cases (Ops.truncate_from e.index n.wal)) [
  | inl panic ↦ absurd (cc)
  | inr ((wal, true), cut) ↦
      let m : Node = record n { wal = wal } in
      let p : n' ≡ (overwrite_log e es m).0 = ground arith in
      rw p (overwrite_log-Grown k e es m w c h)
  | inr ((wal, false), cut) ↦ let p : n'.log ≡ n.log = ground arith in rw p (Grown-refl k w)
]

Grown-suc : {k : ℕ} {l l' : RaftLog} → Grown (suc k) l l' → Grown k l l'
Grown-suc {k} {l} {l'} g = record {
  well_formed = g.well_formed;
  committed_kept = g.committed_kept;
  below_kept =
      sym (take-take_of_le k (suc k) l'.entries (omega arith))
      ∙ ap (take k) g.below_kept
      ∙ take-take_of_le k (suc k) l.entries (omega arith);
  commit_of = g.commit_of;
  applied_of = g.applied_of;
}

-- An entry of the request that is not there is the next one; one that is there has its position.
pub get_entry-end :
    (k : ℕ) (e : LogEntry) (l : RaftLog)
    → e.index ≡ k
    → k ≤ length l.entries
    → get_entry l e.index ≡ none
    → length l.entries ≡ k
unfolding get_entry
get_entry-end k e l i h g = omega (arith, get_elem?-le_length l.entries e.index g)

pub get_entry-lt :
    (k : ℕ) (e : LogEntry) (l : RaftLog) {f : LogEntry}
    → e.index ≡ k
    → get_entry l e.index ≡ some f
    → suc k ≤ length l.entries
unfolding get_entry
get_entry-lt k e l i g = omega (arith, get_elem?-lt_length l.entries e.index g)

-- The loop keeps the log's shape, what lies below the first entry of the request, and what is
-- committed, whatever it finds and whatever the disk does.
pub append_entries-Grown :
    (k : ℕ) (es : List LogEntry) (n : Node) {n' : Node} {done : Bool}
    → IsWellFormed n.log
    → Contiguous k es
    → k ≤ length n.log.entries
    → append_entries es n ≡ some (n', done)
    → Grown k n.log n'.log
unfolding append_entries
append_entries-Grown k [] n {n'} w c h q =
    let p : n'.log ≡ n.log = ground arith in rw p (Grown-refl k w)
append_entries-Grown k (e ∷ es) n {n'} {done} w c h q =
    elim (Option-cases (get_entry n.log e.index)) [
      | inl missing ↦
          let p : n'.log ≡ (save_and_append (e ∷ es) n).0.log = ground arith in
          let len = get_entry-end k e n.log c.0 h missing in
          rw (p, ← len) (save_and_append-Grown (e ∷ es) n w (rw len c))
      | inr (old, found) ↦ elim (Bool-cases (old.term == e.term)) [
        | inl same ↦ Grown-suc (
            append_entries-Grown (suc k) es n w c.1 (get_entry-lt k e n.log c.0 found)
              (let p : append_entries es n ≡ some (n', done) = ground arith in p))
        | inr differ ↦
            overwrite-Grown k e es n w c h
              (let p : overwrite e es n ≡ some (n', done) = ground arith in p)
      ]
    ]
