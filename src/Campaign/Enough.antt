-- ===== src/Campaign/Enough.antt =====
-- raft/election.go: what a won vote means, whatever the other goroutines do meanwhile.
use raftly.Common.{
  ℕ, suc, ◌+◌, ◌≤◌, ◌<◌, ◌≡◌, List, [], ◌∷◌, Bool, true, false, ltb, leb, Bool-cases, inl, inr,
  arith,
}
use raftly.Node.{Node}
use raftly.Campaign.{Arrival, won, moved_on, tally}
use raftly.Campaign.Quiet.{granted}

-- The vote was won at a node that was still where it had started the count, and `m` is what became
-- of the node before the lock was taken again.
pub record WonAt (pre_vote : Bool) (term : ℕ) (m : Node) : Type 0 where
  pub last : Arrival
  pub at : Node
  pub stays : moved_on pre_vote term at ≡ false
  pub response : last.response.term ≤ at.current_term
  pub vote : last.response.vote_granted ≡ true
  pub then_after : m ≡ last.after at

-- A vote is won only with enough votes granted, counting the node's own, and only at a node that
-- after the response that decided was still in the role and the term that it stood in, and that
-- response was a vote.
tally-won :
    (pre_vote : Bool) (term needed votes : ℕ) (arrivals : List Arrival) (n : Node) {m : Node}
    → votes < needed
    → tally pre_vote term needed votes arrivals n ≡ won m
    → (needed ≤ votes + granted arrivals) × WonAt pre_vote term m
unfolding tally
tally-won pre_vote term needed votes [] n few q = absurd (cc)
tally-won pre_vote term needed votes (a ∷ later) n {m} few q =
    elim (Bool-cases (moved_on pre_vote term (a.before n))) [
      | inl moved ↦ absurd (ground arith)
      | inr stays ↦ elim (Bool-cases (ltb (a.before n).current_term a.response.term)) [
        | inl higher ↦ absurd (ground arith)
        | inr low ↦ elim (Bool-cases a.response.vote_granted) [
          | inl voted ↦ elim (Bool-cases (leb needed (suc votes))) [
            | inl enough ↦ (
              ground arith,
              record {
                last = a;
                at = a.before n;
                stays = stays;
                response = ground arith;
                vote = voted;
                then_after = ground arith;
              },
            )
            | inr short ↦
                let rest : tally pre_vote term needed (suc votes) later (a.before n) ≡ won m =
                  ground arith in
                let (enough, w) =
                  tally-won pre_vote term needed (suc votes) later (a.before n) (ground arith)
                    rest in
                (ground arith, w)
          ]
          | inr denied ↦
              let rest : tally pre_vote term needed votes later (a.before n) ≡ won m =
                ground arith in
              let (enough, w) = tally-won pre_vote term needed votes later (a.before n) few rest in
              (ground arith, w)
        ]
      ]
    ]
