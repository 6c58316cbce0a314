-- ===== src/Replication/Safety.antt =====
-- raft/replication.go: what a follower's handler keeps, and what a success means.
use raftly.Common.{
  ℕ, suc, ◌≤◌, ◌≡◌, ◌∙◌, refl, sym, ap, min, none, some, Bool, true, false, length, All, take,
  arith, Option-cases, inl, inr,
}
use Prim.Native.Nat.{max}
use mathlib.Core.Path.{ap₂}
use raftly.Log.{LogEntry, RaftLog, get_entry, last_entry, last_index}
use raftly.Log.Shape.{Contiguous, IsWellFormed}
use raftly.Message.{AppendEntriesRequest, AppendEntriesResponse}
use raftly.Node.{Node, Env, become_follower}
use raftly.Node.Terms.{Followed, become_follower-Followed}
use raftly.Replication.{check_prev, append_entries, advance_commit, reply, handle_append_entries}
use raftly.Replication.Grown.{Grown, append_entries-Grown}
use raftly.Replication.Matching.{Has, All-map, append_entries-Has}
use raftly.Replication.Follower.{
  SameTerm, append_entries-SameTerm, Advanced, advance_commit-Advanced, new_commit, PrevMatches,
  check_prev-none, prev-lt, Handled, stale, conflict, looped, handled,
}

-- The log of a node after a message, against the one before.
pub record Kept (n m : Node) : Type 0 where
  pub well_formed : IsWellFormed m.log
  pub committed :
      take (suc n.log.commit_index) m.log.entries ≡ take (suc n.log.commit_index) n.log.entries
  pub commit : n.log.commit_index ≤ m.log.commit_index
  pub applied : m.log.last_applied ≡ n.log.last_applied
  pub term : n.current_term ≤ m.current_term

Followed-Kept : {term : ℕ} {n m : Node} → IsWellFormed n.log → Followed term n m → Kept n m
Followed-Kept w f = ground (arith, f.term_of, f.log_of)

Grown-Kept : {k : ℕ} {n m : Node} → Grown k n.log m.log → SameTerm n m → Kept n m
Grown-Kept g s = record {
  well_formed = g.well_formed;
  committed = g.committed_kept;
  commit = omega (arith, g.commit_of);
  applied = g.applied_of;
  term = omega (arith, s.term);
}

Kept-trans :
    {a b c : Node} → Kept a b → b.log.commit_index ≡ a.log.commit_index → Kept b c → Kept a c
Kept-trans {a} {b} {c} f e g = record {
  well_formed = g.well_formed;
  committed = (rw (← e) g.committed) ∙ f.committed;
  commit = omega (arith, f.commit, g.commit);
  applied = g.applied ∙ f.applied;
  term = omega (arith, f.term, g.term);
}

Kept-refl : {n : Node} → IsWellFormed n.log → Kept n n
Kept-refl w = record {
  well_formed = w;
  committed = refl;
  commit = omega arith;
  applied = refl;
  term = omega arith;
}

Advanced-Kept : {leader_commit : ℕ} {n m : Node} → Advanced leader_commit n m → Kept n m
Advanced-Kept {leader_commit} {n} a = record {
  well_formed = a.well_formed;
  committed = ap (take (suc n.log.commit_index)) a.entries;
  commit = ground (arith, a.commit);
  applied = a.applied;
  term = omega (arith, a.term);
}

reply-Kept :
    (leader_commit : ℕ) {n' : Node} {r : AppendEntriesResponse} (m : Node) (done : Bool)
    → IsWellFormed m.log
    → (n', r) ≡ reply leader_commit (m, done)
    → Kept m n'
reply-Kept leader_commit {n'} m false w q =
    let p : n' ≡ m = ap (λ (t : Node × AppendEntriesResponse). t.0) q in rw p (Kept-refl w)
reply-Kept leader_commit {n'} m true w q =
    let p : n' ≡ advance_commit leader_commit m =
      ap (λ (t : Node × AppendEntriesResponse). t.0) q in
    rw p (Advanced-Kept (advance_commit-Advanced leader_commit m w))

Handled-Kept :
    {env : Env} {req : AppendEntriesRequest} {n n' : Node} {r : AppendEntriesResponse}
    → IsWellFormed n.log
    → Contiguous (suc req.prev_log_index) req.entries
    → Handled env req n n' r
    → Kept n n'
Handled-Kept w c (stale lt p e) = rw p (Kept-refl w)
Handled-Kept {env} {req} {n} w c (conflict le p e) =
    rw p (Followed-Kept w (become_follower-Followed env req.term req.leader_id n))
Handled-Kept {env} {req} {n} {n'} w c (looped m done le pass loop e) =
    Kept-trans first (ap (λ (l : RaftLog). l.commit_index) f.log_of) (
      Kept-trans (Grown-Kept g (append_entries-SameTerm req.entries n1 loop)) g.commit_of
        (reply-Kept req.leader_commit m done g.well_formed e))
  where
    n1 : Node
    n1 = become_follower env req.term req.leader_id n

    f : Followed req.term n n1
    f = become_follower-Followed env req.term req.leader_id n

    first : Kept n n1
    first = Followed-Kept w f

    g : Grown (suc req.prev_log_index) n1.log m.log
    g =
        append_entries-Grown (suc req.prev_log_index) req.entries n1 first.well_formed c
          (prev-lt req first.well_formed (check_prev-none req n1 pass)) loop

-- Whatever the disk does, a message with entries that follow its PrevLogIndex keeps the follower's
-- log well formed, keeps every committed entry as it was, and moves neither the commit index nor
-- the term back, nor `lastApplied`.
pub handle_append_entries-Kept :
    (env : Env) (req : AppendEntriesRequest) (n : Node) {n' : Node} {r : AppendEntriesResponse}
    → IsWellFormed n.log
    → Contiguous (suc req.prev_log_index) req.entries
    → handle_append_entries env req n ≡ some (n', r)
    → Kept n n'
handle_append_entries-Kept env req n {n'} {r} w c q = Handled-Kept w c (handled env req n n' r q)

-- What the follower's log is after a reply of success.
pub record Agrees (req : AppendEntriesRequest) (n n' : Node) : Type 0 where
  pub current : n'.current_term ≡ req.term
  pub previous : PrevMatches req n.log
  pub below :
      take (suc req.prev_log_index) n'.log.entries ≡ take (suc req.prev_log_index) n.log.entries
  pub present : All (Has n'.log) req.entries
  pub commit :
      n'.log.commit_index ≡ max n.log.commit_index (min req.leader_commit (last_index n'.log))

check_prev_refuses :
    (req : AppendEntriesRequest) (n : Node) {r : AppendEntriesResponse}
    → check_prev req n ≡ some r
    → r.success ≡ false
unfolding check_prev
check_prev_refuses req n q = elim (Option-cases (get_entry n.log req.prev_log_index)) [
  | inl missing ↦ ground arith
  | inr (e, found) ↦ ground arith
]

Has-entries : (l l' : RaftLog) → l'.entries ≡ l.entries → (e : LogEntry) → Has l e → Has l' e
unfolding get_entry
Has-entries l l' p e (f, found, t) = (f, rw p found, t)

last_index-entries : (l l' : RaftLog) → l'.entries ≡ l.entries → last_index l' ≡ last_index l
unfolding last_index
last_index-entries l l' p = ap (λ es. (last_entry es).index) p

new_commit-max :
    (leader_commit : ℕ) (l : RaftLog)
    → new_commit leader_commit l ≡ max l.commit_index (min leader_commit (last_index l))
new_commit-max leader_commit l = ground arith

module _ (env : Env) {req : AppendEntriesRequest} {n m : Node} (w : IsWellFormed n.log)
    (c : Contiguous (suc req.prev_log_index) req.entries) (le : n.current_term ≤ req.term)
    (pass : check_prev req (become_follower env req.term req.leader_id n) ≡ none)
    (loop : append_entries req.entries (become_follower env req.term req.leader_id n)
      ≡ some (m, true)) where
  looped-Agrees : Agrees req n (advance_commit req.leader_commit m)
  looped-Agrees = record {
    current = ground (arith, a.term, s.term, f.term_of);
    previous = rw f.log_of at matches;
    below =
        ap (take (suc req.prev_log_index)) a.entries
        ∙ g.below_kept
        ∙ ap (λ (l : RaftLog). take (suc req.prev_log_index) l.entries) f.log_of;
    present =
        All-map req.entries (Has-entries m.log (advance_commit req.leader_commit m).log a.entries)
          (append_entries-Has (suc req.prev_log_index) req.entries n1 w1 c bound loop);
    commit =
        a.commit
        ∙ new_commit-max req.leader_commit m.log
        ∙ ap₂ (λ (x y : ℕ). max x (min req.leader_commit y))
            (g.commit_of ∙ ap (λ (l : RaftLog). l.commit_index) f.log_of)
            (sym (last_index-entries m.log (advance_commit req.leader_commit m).log a.entries));
  }
    where
      n1 : Node
      n1 = become_follower env req.term req.leader_id n

      f : Followed req.term n n1
      f = become_follower-Followed env req.term req.leader_id n

      w1 : IsWellFormed n1.log
      w1 = (Followed-Kept w f).well_formed

      matches : PrevMatches req n1.log
      matches = check_prev-none req n1 pass

      bound : suc req.prev_log_index ≤ length n1.log.entries
      bound = prev-lt req w1 matches

      g : Grown (suc req.prev_log_index) n1.log m.log
      g = append_entries-Grown (suc req.prev_log_index) req.entries n1 w1 c bound loop

      s : SameTerm n1 m
      s = append_entries-SameTerm req.entries n1 loop

      a : Advanced req.leader_commit m (advance_commit req.leader_commit m)
      a = advance_commit-Advanced req.leader_commit m g.well_formed

Handled-Agrees :
    {env : Env} {req : AppendEntriesRequest} {n n' : Node} {r : AppendEntriesResponse}
    → IsWellFormed n.log
    → Contiguous (suc req.prev_log_index) req.entries
    → r.success ≡ true
    → Handled env req n n' r
    → Agrees req n n'
Handled-Agrees w c ok (stale lt p e) = absurd (ground arith)
Handled-Agrees {req = req} {n' = n'} w c ok (conflict le p e) =
    absurd (ground (arith, check_prev_refuses req n' e))
Handled-Agrees w c ok (looped m false le pass loop e) =
    absurd (let z = ap (λ (t : Node × AppendEntriesResponse). t.1.success) e in cc)
Handled-Agrees {env} {req} {n' = n'} w c ok (looped m true le pass loop e) =
    let p : n' ≡ advance_commit req.leader_commit m =
      ap (λ (t : Node × AppendEntriesResponse). t.0) e in
    rw p (looped-Agrees env w c le pass loop)

-- Log matching. A reply of success means that the node is in the leader's term, had the entry
-- before the request's with its term, has changed nothing up to there, has every entry of the
-- request at its index with its term, and has committed up to the leader's commit index or the end
-- of its own log, whichever comes first, but never moved back.
pub handle_append_entries-Agrees :
    (env : Env) (req : AppendEntriesRequest) (n : Node) {n' : Node} {r : AppendEntriesResponse}
    → IsWellFormed n.log
    → Contiguous (suc req.prev_log_index) req.entries
    → handle_append_entries env req n ≡ some (n', r)
    → r.success ≡ true
    → Agrees req n n'
handle_append_entries-Agrees env req n {n'} {r} w c q ok =
    Handled-Agrees w c ok (handled env req n n' r q)
