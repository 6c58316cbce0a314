-- ===== src/Campaign/Quiet.antt =====
-- raft/election.go: a campaign that nothing disturbs.
use raftly.Common.{
  ℕ, length, ◌/◌, suc, ◌+◌, ◌≤◌, ◌<◌, ◌≡◌, refl, List, [], ◌∷◌, Bool, true, false, All, ltb, leb,
  u64, Bool-cases, inl, inr, if◌then◌else◌, arith,
}
use raftly.Config.{pre_candidate}
use raftly.Node.{
  Node, Env, is_leader, is_candidate, become_candidate, become_leader, become_follower, quorum,
  reset_election_timer, persist_state, Peer, is_pre_candidate,
}
use raftly.Campaign.{
  Arrival, won, lost, Round, moved_on, tally, no_peers, conclude, lost_election, election, pre_vote,
}

abbrev pub granted : List Arrival → ℕ
granted [] = 0
granted (a ∷ later) = let rest = granted later in if a.response.vote_granted then suc rest else rest

-- Nothing happens to the node around the response, and it is of no higher term.
abbrev pub IsQuiet : ℕ → Arrival → Type 0
IsQuiet term a =
    ((n : Node) → a.before n ≡ n) × ((n : Node) → a.after n ≡ n) × (a.response.term ≤ term)

tally_quiet :
    (pre_vote : Bool) (term needed votes : ℕ) (arrivals : List Arrival) (n : Node)
    → All (IsQuiet n.current_term) arrivals
    → moved_on pre_vote term n ≡ false
    → votes < needed
    → tally pre_vote term needed votes arrivals n
      ≡ (if leb needed (votes + granted arrivals) then won n else lost n)
unfolding tally
tally_quiet pre_vote term needed votes [] n q stays few = ground arith
tally_quiet pre_vote term needed votes (a ∷ later) n ((b, c, t), q) stays few =
    let low : ltb n.current_term a.response.term ≡ false = ground arith in
    elim (Bool-cases a.response.vote_granted) [
      | inl voted ↦ elim (Bool-cases (leb needed (suc votes))) [
        | inl enough ↦ rw (b n, stays, low, voted, enough, c n) (ground arith)
        | inr short ↦
            rw (b n, stays, low, voted, short)
              (let ih =
                  tally_quiet pre_vote term needed (suc votes) later n q stays (ground arith) in
                ground arith)
      ]
      | inr denied ↦
          let short : leb needed votes ≡ false = ground arith in
          rw (b n, stays, low, denied, short)
            (tally_quiet pre_vote term needed votes later n q stays few)
    ]

become_candidate_lem :
    (env : Env) (n : Node)
    → (is_candidate (become_candidate env n).state ≡ true)
      × (is_pre_candidate (become_candidate env n).state ≡ false)
      × ((become_candidate env n).peers ≡ n.peers)
      × ((become_candidate env n).current_term ≡ u64 (n.current_term + 1))
unfolding become_candidate reset_election_timer persist_state
become_candidate_lem env n = ground arith

quorum-peers : (n m : Node) → m.peers ≡ n.peers → quorum m ≡ quorum n
unfolding quorum
quorum-peers n m p = rw p refl

quorum-no_peers : (n : Node) → no_peers n.peers ≡ true → quorum n ≡ 1
unfolding quorum
quorum-no_peers n alone = go n.peers alone
  where
    go : (ps : List Peer) → no_peers ps ≡ true → (length ps + 1) / 2 + 1 ≡ 1
    go [] h = omega arith
    go (p ∷ ps) h = absurd (cc)

pub quorum-peers_lt : (n : Node) → no_peers n.peers ≡ false → 1 < quorum n
unfolding quorum
quorum-peers_lt n some_peers = go n.peers some_peers
  where
    go : (ps : List Peer) → no_peers ps ≡ false → 1 < (length ps + 1) / 2 + 1
    go [] h = absurd (cc)
    go (p ∷ ps) h = omega arith

-- A node that does not lead stands for election, nothing disturbs it, and no response is of a
-- higher term. It ends as the leader of the next term when the votes granted, with its own, make a
-- quorum, and else as a follower in that term.
pub quiet_election :
    (r : Round) (n : Node)
    → is_leader n.state ≡ false
    → ((m : Node) → r.between m ≡ m)
    → All (IsQuiet (u64 (n.current_term + 1))) r.arrivals
    → election r n ≡ (
        if leb (quorum n) (1 + granted r.arrivals)
        then become_leader (become_candidate r.start n)
        else become_follower r.end (u64 (n.current_term + 1)) [] (become_candidate r.start n))
unfolding election conclude lost_election moved_on
quiet_election r n idle undisturbed q =
    let c = become_candidate r.start n in
    let (stands, not_pre, peers, term) = become_candidate_lem r.start n in
    let quorums = quorum-peers n c peers in
    elim (Bool-cases (no_peers n.peers)) [
      | inl alone ↦
          let enough : leb (quorum n) (1 + granted r.arrivals) ≡ true =
            ground (arith, quorum-no_peers n alone) in
          rw (election, idle, alone, undisturbed c, enough) refl
      | inr many ↦
          let stays : moved_on false c.current_term c ≡ false = ground arith in
          let counted =
            tally_quiet false c.current_term (quorum c) 1 r.arrivals c (rw (← term) at q) stays
              (omega (arith, quorums, quorum-peers_lt n many)) in
          elim (Bool-cases (leb (quorum n) (1 + granted r.arrivals))) [
            | inl enough ↦ rw (election, idle, many, counted, quorums, enough) refl
            | inr short ↦
                rw (election, idle, many, counted, quorums, short)
                  (rw (undisturbed c, stands, term) refl)
          ]
    ]

abbrev pub asking : Node → Node
asking n = record n { state = pre_candidate }

-- A node that does not lead asks for pre-votes, nothing disturbs it, and no response is of a higher
-- term. With a quorum it stands for election, and else it is a follower again in its old term: the
-- question itself has moved neither its term nor its vote, log or file.
quiet_pre_vote :
    (r real : Round) (n : Node)
    → is_leader n.state ≡ false
    → ((m : Node) → r.between m ≡ m)
    → All (IsQuiet n.current_term) r.arrivals
    → pre_vote r real n ≡ (
        if leb (quorum n) (1 + granted r.arrivals)
        then election real (asking n)
        else become_follower r.end n.current_term [] (asking n))
unfolding pre_vote conclude lost_election moved_on
quiet_pre_vote r real n idle undisturbed q =
    let c = asking n in
    let quorums = quorum-peers n c refl in
    elim (Bool-cases (no_peers n.peers)) [
      | inl alone ↦
          let enough : leb (quorum n) (1 + granted r.arrivals) ≡ true =
            ground (arith, quorum-no_peers n alone) in
          rw (pre_vote, idle, alone, undisturbed c, enough) refl
      | inr many ↦
          let counted =
            tally_quiet true (u64 (n.current_term + 1)) (quorum c) 1 r.arrivals c q refl
              (omega (arith, quorums, quorum-peers_lt n many)) in
          elim (Bool-cases (leb (quorum n) (1 + granted r.arrivals))) [
            | inl enough ↦ rw (pre_vote, idle, many, counted, quorums, enough) refl
            | inr short ↦
                rw (pre_vote, idle, many, counted, quorums, short) (rw (undisturbed c) refl)
          ]
    ]
