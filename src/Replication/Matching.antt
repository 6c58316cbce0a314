-- ===== src/Replication/Matching.antt =====
-- raft/replication.go: after a successful append loop the log has the entries of the request.
use raftly.Common.{
  ℕ, suc, ◌≤◌, ◌≡◌, ◌∙◌, refl, sym, ap, List, [], ◌∷◌, ◌++◌, some, true, false, length, All,
  get_elem?, length-append, get_elem?-append_right, get_elem?-take, append_assoc, arith,
  Option-cases, Bool-cases, inl, inr, ◌==◌,
}
use raftly.Log
use raftly.Log.{LogEntry, RaftLog, get_entry, append}
use raftly.Log.Shape.{Contiguous, IsWellFormed}
use raftly.Wal.Ops
use raftly.Node.{Node}
use raftly.Replication.{save_and_append, overwrite_log, overwrite, append_entries}
use raftly.Replication.Grown.{
  Grown, save_and_append-log, append_entries-Grown, get_entry-end, get_entry-lt, truncate-Grown,
}

-- The log has an entry with the index and the term of `e`.
abbrev pub Has : RaftLog → LogEntry → Type 0
Has l e = (f : LogEntry) × (get_entry l e.index ≡ some f) × (f.term ≡ e.term)

appended :
    (k : ℕ) (xs es : List LogEntry)
    → length xs ≡ k
    → Contiguous k es
    → All (λ e. get_elem? (xs ++ es) e.index ≡ some e) es
appended k xs [] h c = tt
appended k xs (e ∷ es) h c = (
  get_elem?-append_right xs (e ∷ es) 0 e.index (omega (arith, c.0)),
  let rest = appended (suc k) (xs ++ e ∷ []) es (omega (arith, length-append xs (e ∷ []))) c.1 in
      rw (append_assoc xs (e ∷ []) es) at rest,
)

pub All-map {ℓ κ μ} :
    {A : Type ℓ} {P : A → Type κ} {Q : A → Type μ} (xs : List A)
    → ((x : A) → P x → Q x)
    → All P xs
    → All Q xs
All-map [] f h = tt
All-map (x ∷ xs) f h = (f x h.0, All-map xs f h.1)

append-Has :
    (es : List LogEntry) (l : RaftLog)
    → Contiguous (length l.entries) es
    → All (Has (append l es)) es
unfolding append get_entry
append-Has es l c =
    All-map es (λ e h. (e, h, refl)) (appended (length l.entries) l.entries es refl c)

save_and_append-Has :
    (es : List LogEntry) (n : Node) {n' : Node}
    → Contiguous (length n.log.entries) es
    → save_and_append es n ≡ (n', true)
    → All (Has n'.log) es
save_and_append-Has es n {n'} c q =
    let p : n'.log ≡ append n.log es = ground (arith, (save_and_append-log es n).0) in
    rw p (append-Has es n.log c)

overwrite_log-Has :
    (k : ℕ) (e : LogEntry) (es : List LogEntry) (n : Node) {n' : Node}
    → IsWellFormed n.log
    → Contiguous k (e ∷ es)
    → k ≤ length n.log.entries
    → overwrite_log e es n ≡ (n', true)
    → All (Has n'.log) (e ∷ es)
unfolding overwrite_log
overwrite_log-Has k e es n {n'} w c h q = elim (Option-cases (Log.truncate_from n.log e.index)) [
  | inl refused ↦ absurd (ground arith)
  | inr (l, cut) ↦
      let len = (truncate-Grown n.log k w h (rw c.0 at cut)).0 in
      save_and_append-Has (e ∷ es) (record n { log = l }) (rw len c)
        (let p : save_and_append (e ∷ es) (record n { log = l }) ≡ (n', true) = ground arith in p)
]

overwrite-Has :
    (k : ℕ) (e : LogEntry) (es : List LogEntry) (n : Node) {n' : Node}
    → IsWellFormed n.log
    → Contiguous k (e ∷ es)
    → k ≤ length n.log.entries
    → overwrite e es n ≡ some (n', true)
    → All (Has n'.log) (e ∷ es)
unfolding overwrite
overwrite-Has k e es n {n'} w c h q = elim (Option-cases (Ops.truncate_from e.index n.wal)) [
  | inl panic ↦ absurd (cc)
  | inr ((wal, true), cut) ↦
      let m : Node = record n { wal = wal } in
      overwrite_log-Has k e es m w c h
        (let p : overwrite_log e es m ≡ (n', true) = ground arith in p)
  | inr ((wal, false), cut) ↦ absurd (ground arith)
]

kept_entry :
    (k : ℕ) (e : LogEntry) {l l' : RaftLog} {old : LogEntry}
    → e.index ≡ k
    → Grown (suc k) l l'
    → get_entry l e.index ≡ some old
    → get_entry l' e.index ≡ some old
unfolding get_entry
kept_entry k e {l} {l'} i g found =
    sym (get_elem?-take (suc k) l'.entries e.index (omega arith))
    ∙ ap (λ t. get_elem? t e.index) g.below_kept
    ∙ get_elem?-take (suc k) l.entries e.index (omega arith)
    ∙ found

-- After the loop has gone through without an error, every entry of the request is there with its
-- term.
pub append_entries-Has :
    (k : ℕ) (es : List LogEntry) (n : Node) {n' : Node}
    → IsWellFormed n.log
    → Contiguous k es
    → k ≤ length n.log.entries
    → append_entries es n ≡ some (n', true)
    → All (Has n'.log) es
unfolding append_entries
append_entries-Has k [] n w c h q = tt
append_entries-Has k (e ∷ es) n {n'} w c h q = elim (Option-cases (get_entry n.log e.index)) [
  | inl missing ↦
      let len = get_entry-end k e n.log c.0 h missing in
      save_and_append-Has (e ∷ es) n (rw len c)
        (let p : save_and_append (e ∷ es) n ≡ (n', true) = ground arith in p)
  | inr (old, found) ↦ elim (Bool-cases (old.term == e.term)) [
    | inl same ↦
        let p : append_entries es n ≡ some (n', true) = ground arith in
        let lt = get_entry-lt k e n.log c.0 found in
        (
          (
            old,
            kept_entry k e c.0 (append_entries-Grown (suc k) es n w c.1 lt p) found,
            ground arith,
          ),
          append_entries-Has (suc k) es n w c.1 lt p,
        )
    | inr differ ↦
        overwrite-Has k e es n w c h
          (let p : overwrite e es n ≡ some (n', true) = ground arith in p)
  ]
]
