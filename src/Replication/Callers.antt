-- ===== src/Replication/Callers.antt =====
-- raft/replication.go: `handleAppendEntries` tells no caller of `Propose` anything.
use raftly.Common.{ℕ, arith, ◌≡◌, ◌∙◌, refl, ap, some, Bool, true, false}
use raftly.Message.{AppendEntriesRequest, AppendEntriesResponse}
use raftly.Node.{Node, Env}
use raftly.Node.Terms.{become_follower-Followed}
use raftly.Replication.{advance_commit, reply, handle_append_entries}
use raftly.Replication.Follower.{append_entries-SameTerm, Handled, stale, conflict, looped, handled}

advance_commit-callers :
    (leader_commit : ℕ) (n : Node) → (advance_commit leader_commit n).proposals ≡ n.proposals
unfolding advance_commit
advance_commit-callers leader_commit n = ground arith

reply-callers :
    (leader_commit : ℕ) (m : Node) (done : Bool)
    → (reply leader_commit (m, done)).0.proposals ≡ m.proposals
reply-callers leader_commit m false = refl
reply-callers leader_commit m true = advance_commit-callers leader_commit m

Handled-callers :
    {env : Env} {req : AppendEntriesRequest} {n n' : Node} {r : AppendEntriesResponse}
    → Handled env req n n' r
    → n'.proposals ≡ n.proposals
Handled-callers (stale lt p e) = ap (λ (m : Node). m.proposals) p
Handled-callers {env} {req} {n} (conflict le p e) =
    ap (λ (m : Node). m.proposals) p
    ∙ (become_follower-Followed env req.term req.leader_id n).callers_of
Handled-callers {env} {req} {n} (looped m done le pass loop e) =
    ap (λ (t : Node × AppendEntriesResponse). t.0.proposals) e
    ∙ reply-callers req.leader_commit m done
    ∙ (append_entries-SameTerm req.entries _ loop).callers
    ∙ (become_follower-Followed env req.term req.leader_id n).callers_of

-- The callers that wait before a message wait after it.
pub handle_append_entries-callers :
    (env : Env) (req : AppendEntriesRequest) (n : Node) {n' : Node} {r : AppendEntriesResponse}
    → handle_append_entries env req n ≡ some (n', r)
    → n'.proposals ≡ n.proposals
handle_append_entries-callers env req n {n'} {r} q = Handled-callers (handled env req n n' r q)
