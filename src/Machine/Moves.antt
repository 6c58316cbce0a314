-- ===== src/Machine/Moves.antt =====
-- raft/node.go, raft/election.go, raft/replication.go: what each step does to the log and the term.
use raftly.Common.{
  ℕ, suc, ◌+◌, ◌^◌, ◌≤◌, ◌<◌, ◌≡◌, refl, sym, ◌∙◌, ap, List, [], ◌∷◌, length, take, not, ◌||◌,
  Bytes, ltb, ◌==◌, Bool-cases, Option-cases, inl, inr, take-take_of_le, arith,
}
use raftly.Log.{LogEntry, RaftLog, last_index, append, set_last_applied}
use raftly.Log.Shape.{IsWellFormed, last_index-length}
use raftly.Log.Keeps.{append-IsWellFormed, committed-append}
use raftly.Message.{AppendEntriesRequest, AppendEntriesResponse}
use raftly.Wal.Ops.{save_entry, sync}
use raftly.Node.{
  Node, Peer, Env, noop, is_leader, become_follower, become_candidate, become_leader,
  reset_election_timer, persist_state,
}
use raftly.Node.Terms.{become_follower-Followed}
use raftly.Replication.Safety.{Kept}
use raftly.Leader.{
  spawn_replicas, maybe_commit, maybe_send_heartbeats, set_peer, acknowledged, replicate_response,
}
use raftly.Leader.Commit.{maybe_commit-Kept}
use raftly.Proposals.{proposed, propose, deliver, notify_proposal, caller_at}

-- The log of a node later on, against its log before.
pub record Moved (n m : Node) : Type 0 where
  pub well_formed : IsWellFormed m.log
  pub committed :
      take (suc n.log.commit_index) m.log.entries ≡ take (suc n.log.commit_index) n.log.entries
  pub commit : n.log.commit_index ≤ m.log.commit_index
  pub term : n.current_term ≤ m.current_term

pub Moved-trans : {a b c : Node} → Moved a b → Moved b c → Moved a c
Moved-trans {a} {b} {c} f g = record {
  well_formed = g.well_formed;
  committed =
      sym (
        take-take_of_le (suc a.log.commit_index) (suc b.log.commit_index) c.log.entries
          (omega (arith, f.commit)))
      ∙ ap (take (suc a.log.commit_index)) g.committed
      ∙ take-take_of_le (suc a.log.commit_index) (suc b.log.commit_index) b.log.entries
          (omega (arith, f.commit))
      ∙ f.committed;
  commit = omega (arith, f.commit, g.commit);
  term = omega (arith, f.term, g.term);
}

pub Moved-same_log :
    {n m : Node} → IsWellFormed n.log → m.log ≡ n.log → n.current_term ≤ m.current_term → Moved n m
Moved-same_log {n} {m} w p le = record {
  well_formed = rw p w;
  committed = ap (λ (l : RaftLog). take (suc n.log.commit_index) l.entries) p;
  commit = rw p (omega arith);
  term = le;
}

pub Kept-Moved : {n m : Node} → Kept n m → Moved n m
Kept-Moved k = record {
  well_formed = k.well_formed;
  committed = k.committed;
  commit = k.commit;
  term = k.term;
}

pub Moved-appended :
    {n m : Node} (e : LogEntry)
    → IsWellFormed n.log
    → e.index ≡ length n.log.entries
    → m.log ≡ append n.log (e ∷ [])
    → n.current_term ≤ m.current_term
    → Moved n m
unfolding append
Moved-appended {n} {m} e w follows p le = record {
  well_formed = rw p (append-IsWellFormed (e ∷ []) w (follows, tt));
  committed = rw p (committed-append (e ∷ []) w);
  commit = rw p (omega arith);
  term = le;
}

pub become_follower-Moved :
    (env : Env) (term : ℕ) (leader_id : Bytes) (n : Node)
    → IsWellFormed n.log
    → Moved n (become_follower env term leader_id n)
become_follower-Moved env term leader_id n w =
    let f = become_follower-Followed env term leader_id n in
    Moved-same_log w f.log_of (ground (arith, f.term_of))

pub become_candidate-Moved :
    (env : Env) (n : Node)
    → IsWellFormed n.log
    → n.current_term + 1 < 2 ^ 64
    → Moved n (become_candidate env n)
unfolding become_candidate reset_election_timer persist_state
become_candidate-Moved env n w small = Moved-same_log w refl (omega arith)

pub become_leader-Moved :
    (n : Node) → IsWellFormed n.log → last_index n.log + 1 < 2 ^ 64 → Moved n (become_leader n)
unfolding become_leader
become_leader-Moved n w small =
    Moved-appended (noop n) w (omega (arith, last_index-length w)) refl (omega arith)

pub propose-Moved :
    (payload : Bytes) (caller : ℕ) (n : Node)
    → IsWellFormed n.log
    → last_index n.log + 1 < 2 ^ 64
    → Moved n (propose payload caller n).0
unfolding propose
propose-Moved payload caller n w small =
    let idle = Moved-same_log {n = n} {m = n} w refl (omega arith) in
    elim (Bool-cases (is_leader n.state)) [
      | inr off ↦ rw (propose, off) idle
      | inl on ↦ elim (Bool-cases (save_entry (proposed payload n) n.wal).1) [
        | inr unwritten ↦ rw (propose, on, unwritten) (Moved-same_log w refl (omega arith))
        | inl written ↦ elim (Bool-cases (sync (save_entry (proposed payload n) n.wal).0).1) [
          | inr unsynced ↦ rw (propose, on, written, unsynced) (Moved-same_log w refl (omega arith))
          | inl synced ↦
              rw (propose, on, written, synced)
                (Moved-appended (proposed payload n) w (omega (arith, last_index-length w)) refl
                  (omega arith))
        ]
      ]
    ]

spawn_replicas-log :
    (ps : List Peer) (n : Node)
    → ((spawn_replicas ps n).log ≡ n.log) × ((spawn_replicas ps n).current_term ≡ n.current_term)
spawn_replicas-log [] n = (refl, refl)
spawn_replicas-log (p ∷ ps) n = spawn_replicas-log ps _

pub maybe_send_heartbeats-Moved :
    (n : Node) → IsWellFormed n.log → Moved n (maybe_send_heartbeats n)
unfolding maybe_send_heartbeats
maybe_send_heartbeats-Moved n w = elim (Bool-cases (is_leader n.state)) [
  | inr off ↦ rw (maybe_send_heartbeats, off) (Moved-same_log w refl (omega arith))
  | inl on ↦
      let k = maybe_commit-Kept n w in
      let s = spawn_replicas-log n.peers (maybe_commit n) in
      rw (maybe_send_heartbeats, on)
        (Moved-trans (Kept-Moved k) (Moved-same_log k.well_formed s.0 (omega (arith, s.1))))
]

pub replicate_response-Moved :
    (env : Env) (peer_id : Bytes) (req : AppendEntriesRequest) (resp : AppendEntriesResponse)
    (n : Node)
    → IsWellFormed n.log
    → Moved n (replicate_response env peer_id req resp n)
unfolding replicate_response
replicate_response-Moved env peer_id req resp n w =
    elim (Bool-cases (not (is_leader n.state) || not (n.current_term == req.term))) [
      | inl gone ↦ rw (replicate_response, gone) (Moved-same_log w refl (omega arith))
      | inr still ↦ elim (Bool-cases (ltb n.current_term resp.term)) [
        | inl higher ↦
            rw (replicate_response, still, higher) (become_follower-Moved env resp.term [] n w)
        | inr low ↦ elim (Bool-cases resp.success) [
          | inl ok ↦
              let m : Node = record n { peers = set_peer peer_id (acknowledged req) n.peers } in
              let k = Kept-Moved (maybe_commit-Kept m w) in
              rw (replicate_response, still, low, ok)
                (record {
                  well_formed = k.well_formed;
                  committed = k.committed;
                  commit = k.commit;
                  term = k.term;
                })
          | inr refused ↦
              rw (replicate_response, still, low, refused) (Moved-same_log w refl (omega arith))
        ]
      ]
    ]

pub deliver-Moved :
    (e : LogEntry) (n : Node)
    → IsWellFormed n.log
    → e.index ≤ n.log.commit_index
    → Moved n (deliver e n)
unfolding deliver notify_proposal set_last_applied
deliver-Moved e n w le =
    let m : Moved n (record n { log = set_last_applied n.log e.index }) = record {
      well_formed = record {
        contiguous = w.contiguous;
        commit_bound = w.commit_bound;
        applied_bound = le;
      };
      committed = refl;
      commit = omega arith;
      term = omega arith;
    } in
    elim (Option-cases (caller_at e.index n.proposals)) [
      | inl nobody ↦
          rw (deliver, notify_proposal, nobody)
            (record {
              well_formed = m.well_formed;
              committed = refl;
              commit = omega arith;
              term = omega arith;
            })
      | inr (c, waits) ↦
          rw (deliver, notify_proposal, waits)
            (record {
              well_formed = m.well_formed;
              committed = refl;
              commit = omega arith;
              term = omega arith;
            })
    ]
