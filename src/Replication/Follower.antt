-- ===== src/Replication/Follower.antt =====
-- raft/replication.go: `handleAppendEntries` as a whole.
use raftly.Common.{
  ℕ, suc, ◌≤◌, ◌<◌, ◌≡◌, ◌⊎◌, refl, ap, List, [], ◌∷◌, none, some, Bool, length,
  get_elem?-lt_length, arith, Option-cases, Bool-cases, inl, inr, ◌==◌, ltb, if◌then◌else◌,
}
use raftly.Log
use raftly.Log.{LogEntry, RaftLog, get_entry, last_index, commit_to}
use raftly.Log.Shape.{IsWellFormed, last_index-length}
use raftly.Wal.Ops
use raftly.Message.{AppendEntriesRequest, AppendEntriesResponse}
use raftly.Node.{Node, Env, become_follower}
use raftly.Replication.{
  refusal, check_prev, save_and_append, overwrite_log, overwrite, append_entries, advance_commit,
  reply, handle_append_entries,
}

-- The loop leaves the term, the vote and the callers of `Propose` alone.
pub record SameTerm (n m : Node) : Type 0 where
  pub term : m.current_term ≡ n.current_term
  pub vote : m.voted_for ≡ n.voted_for
  pub callers : m.proposals ≡ n.proposals

save_and_append-SameTerm : (es : List LogEntry) (n : Node) → SameTerm n (save_and_append es n).0
unfolding save_and_append
save_and_append-SameTerm es n = ground arith

overwrite_log-SameTerm :
    (e : LogEntry) (es : List LogEntry) (n : Node) → SameTerm n (overwrite_log e es n).0
unfolding overwrite_log
overwrite_log-SameTerm e es n = elim (Option-cases (Log.truncate_from n.log e.index)) [
  | inl refused ↦ rw (refused, overwrite_log) (record { term = refl; vote = refl; callers = refl })
  | inr (l, cut) ↦
      rw (cut, overwrite_log)
        (let s = save_and_append-SameTerm (e ∷ es) (record n { log = l }) in
          record { term = s.term; vote = s.vote; callers = s.callers })
]

pub append_entries-SameTerm :
    (es : List LogEntry) (n : Node) {n' : Node} {done : Bool}
    → append_entries es n ≡ some (n', done)
    → SameTerm n n'
unfolding append_entries overwrite
append_entries-SameTerm [] n q = ground arith
append_entries-SameTerm (e ∷ es) n {n'} {done} q = elim (Option-cases (get_entry n.log e.index)) [
  | inl missing ↦ ground (arith, save_and_append-SameTerm (e ∷ es) n)
  | inr (old, found) ↦ elim (Bool-cases (old.term == e.term)) [
    | inl same ↦
        append_entries-SameTerm es n
          (let p : append_entries es n ≡ some (n', done) = ground arith in p)
    | inr differ ↦ elim (Option-cases (Ops.truncate_from e.index n.wal)) [
      | inl panic ↦ absurd (ground arith)
      | inr ((wal, ok), cut) ↦ ground (arith, overwrite_log-SameTerm e es (record n { wal = wal }))
    ]
  ]
]

-- The commit index that `LeaderCommit` asks for: never less than before, never beyond the log.
abbrev pub new_commit : ℕ → RaftLog → ℕ
new_commit leader_commit l =
    let last = last_index l in
    let wanted = if ltb last leader_commit then last else leader_commit in
    if ltb l.commit_index wanted then wanted else l.commit_index

-- `advance_commit` moves the commit index and no entry.
pub record Advanced (leader_commit : ℕ) (n m : Node) : Type 0 where
  pub well_formed : IsWellFormed m.log
  pub entries : m.log.entries ≡ n.log.entries
  pub commit : m.log.commit_index ≡ new_commit leader_commit n.log
  pub applied : m.log.last_applied ≡ n.log.last_applied
  pub term : m.current_term ≡ n.current_term
  pub callers : m.proposals ≡ n.proposals

pub advance_commit-Advanced :
    (leader_commit : ℕ) (n : Node)
    → IsWellFormed n.log
    → Advanced leader_commit n (advance_commit leader_commit n)
unfolding advance_commit commit_to
advance_commit-Advanced leader_commit n w = ground (arith, last_index-length w)

-- The consistency check passed: the entry before the request's is there, with its term.
abbrev pub PrevMatches : AppendEntriesRequest → RaftLog → Type 0
PrevMatches req l =
    (req.prev_log_index ≡ 0)
    ⊎ ((e : LogEntry) × (get_entry l req.prev_log_index ≡ some e) × (e.term ≡ req.prev_log_term))

pub check_prev-none :
    (req : AppendEntriesRequest) (n : Node) → check_prev req n ≡ none → PrevMatches req n.log
unfolding check_prev
check_prev-none req n q = elim (Bool-cases (req.prev_log_index == 0)) [
  | inl z ↦ inl (ground arith)
  | inr p ↦ elim (Option-cases (get_entry n.log req.prev_log_index)) [
    | inl missing ↦ absurd (ground arith)
    | inr (e, found) ↦ inr (e, found, ground arith)
  ]
]

pub prev-lt :
    (req : AppendEntriesRequest) {l : RaftLog}
    → IsWellFormed l
    → PrevMatches req l
    → suc req.prev_log_index ≤ length l.entries
unfolding get_entry
prev-lt req {l} w (inl z) = omega (arith, w.commit_bound)
prev-lt req {l} w (inr (e, found, t)) =
    omega (arith, get_elem?-lt_length l.entries req.prev_log_index found)

-- The three ways through the handler.
pub data Handled (env : Env) (req : AppendEntriesRequest) (n n' : Node) (r : AppendEntriesResponse)
    : Type 0 where
  stale : req.term < n.current_term → n' ≡ n → r ≡ refusal n → Handled env req n n' r
  conflict :
      n.current_term ≤ req.term
      → n' ≡ become_follower env req.term req.leader_id n
      → check_prev req n' ≡ some r
      → Handled env req n n' r
  looped :
      (m : Node) (done : Bool)
      → n.current_term ≤ req.term
      → check_prev req (become_follower env req.term req.leader_id n) ≡ none
      → append_entries req.entries (become_follower env req.term req.leader_id n) ≡ some (m, done)
      → (n', r) ≡ reply req.leader_commit (m, done)
      → Handled env req n n' r

pub handled :
    (env : Env) (req : AppendEntriesRequest) (n n' : Node) (r : AppendEntriesResponse)
    → handle_append_entries env req n ≡ some (n', r)
    → Handled env req n n' r
unfolding handle_append_entries
handled env req n n' r q = elim (Bool-cases (ltb req.term n.current_term)) [
  | inl old ↦ stale (ground arith) (ground arith) (ground arith)
  | inr new ↦ elim (Option-cases (check_prev req (become_follower env req.term req.leader_id n))) [
    | inl pass ↦
        elim (Option-cases
          (append_entries req.entries (become_follower env req.term req.leader_id n))) [
            | inl panic ↦ absurd (ground arith)
            | inr ((m, done), loop) ↦ looped m done (ground arith) pass loop (ground arith)
          ]
    | inr (c, fail) ↦
        let p : n' ≡ become_follower env req.term req.leader_id n = ground arith in
        conflict (ground arith) p (rw p (let s : c ≡ r = ground arith in rw fail (ap some s)))
  ]
]
