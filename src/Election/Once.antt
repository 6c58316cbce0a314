-- ===== src/Election/Once.antt =====
-- raft/election.go: the votes of a node while only vote requests reach it.
use raftly.Common.{
  ◌≡◌, ◌≢◌, ◌∙◌, sym, refl, List, [], ◌∷◌, Bytes, All, Bool-cases, inl, inr, if◌then◌else◌,
}
use raftly.Message.{VoteRequest}
use raftly.Node.{Node, Env}
use raftly.Election.{handle_request_vote}
use raftly.Election.Vote.{vote_granted_iff, handle_request_vote_effect}

-- The candidates that requests, handled in turn, are granted to.
abbrev pub granted_to : Node → List (Env × VoteRequest) → List Bytes
granted_to n [] = []
granted_to n ((env, req) ∷ rs) =
    let rest = granted_to (handle_request_vote env req n).0 rs in
    if (handle_request_vote env req n).1.vote_granted then req.candidate_id ∷ rest else rest

abbrev pub Named : Env × VoteRequest → Type 0
Named r = r.1.candidate_id ≢ []

keeps_vote :
    (n : Node) (rs : List (Env × VoteRequest)) (c : Bytes)
    → c ≢ []
    → n.voted_for ≡ c
    → All (λ x. x ≡ c) (granted_to n rs)
keeps_vote n [] c ne v = tt
keeps_vote n ((env, req) ∷ rs) c ne v =
    elim (Bool-cases (handle_request_vote env req n).1.vote_granted) [
      | inl g ↦
          let e = (vote_granted_iff env req n).0 g in
          let same : req.candidate_id ≡ c = elim e.1 [
            | inl z ↦ absurd (ne (sym v ∙ z))
            | inr z ↦ sym z ∙ v
          ] in
          rw g (
            same,
            keeps_vote (handle_request_vote env req n).0 rs c ne
                (((handle_request_vote_effect env req n).recorded g).0 ∙ same),
          )
      | inr d ↦ rw d (
          keeps_vote (handle_request_vote env req n).0 rs c ne
            (((handle_request_vote_effect env req n).denied d).0 ∙ v))
    ]

-- However many vote requests a node handles one after another, of whatever terms, all the votes
-- that it grants go to one candidate.
pub one_candidate :
    (n : Node) (rs : List (Env × VoteRequest))
    → All Named rs
    → (c : Bytes) × All (λ x. x ≡ c) (granted_to n rs)
one_candidate n [] h = ([], tt)
one_candidate n ((env, req) ∷ rs) h =
    elim (Bool-cases (handle_request_vote env req n).1.vote_granted) [
      | inl g ↦ (
        req.candidate_id,
        rw g (
          refl,
          keeps_vote (handle_request_vote env req n).0 rs req.candidate_id h.0
              ((handle_request_vote_effect env req n).recorded g).0,
        ),
      )
      | inr d ↦ rw d (one_candidate (handle_request_vote env req n).0 rs h.1)
    ]
