-- ===== src/Proposals/Overwritten.antt =====
-- raft/node.go and raft/replication.go: a caller of `Propose` whose entry a later leader overwrites.
use mathlib.Core.Path.{subst}
use raftly.Common.{
  ℕ, zero, suc, ◌+◌, ◌-◌, ◌^◌, ◌≤◌, ◌<◌, ◌≡◌, ◌≢◌, refl, sym, ◌∙◌, ap, List, [], ◌∷◌, ◌++◌, some,
  true, Bytes, length, get_elem?, get_elem?-append_left, get_elem?-append_right,
  get_elem?-lt_length, get_elem?-take, get_elem?-drop, All-get_elem?, Option-cases, inl, inr, arith,
}
use raftly.Log.{LogEntry, RaftLog, get_entry, last_index, append}
use raftly.Log.Shape.{Contiguous, IsWellFormed}
use raftly.Message.{AppendEntriesRequest, AppendEntriesResponse}
use raftly.Node.{Node, Env}
use raftly.Replication.{handle_append_entries}
use raftly.Replication.Matching.{Has}
use raftly.Replication.Safety.{handle_append_entries-Kept, handle_append_entries-Agrees}
use raftly.Replication.Callers.{handle_append_entries-callers}
use raftly.Proposals.{
  waiting, proposed, without, caller_at, propose, notify_proposal, deliver, deliver_all,
  apply_committed,
}
use raftly.Proposals.Applied.{pending, unapplied_lem, pending-Contiguous}
use raftly.Proposals.Accepted.{propose-waiting, propose-Accepted}

-- The caller has been told of success.
abbrev pub IsTold : ℕ → Node → Type 0
IsTold caller n = (k : ℕ) × (get_elem? n.notified k ≡ some caller)

still_told :
    (caller : ℕ) (told more : List ℕ)
    → (k : ℕ) × (get_elem? told k ≡ some caller)
    → (k : ℕ) × (get_elem? (told ++ more) k ≡ some caller)
still_told caller told more (k, found) =
    (k, get_elem?-append_left told more k (get_elem?-lt_length told k found) ∙ found)

deliver-IsTold :
    (caller : ℕ) (e : LogEntry) (n : Node) → IsTold caller n → IsTold caller (deliver e n)
unfolding deliver notify_proposal
deliver-IsTold caller e n t = elim (Option-cases (caller_at e.index n.proposals)) [
  | inl nobody ↦ rw (deliver, notify_proposal, nobody) t
  | inr (c, waits) ↦ rw (deliver, notify_proposal, waits) (still_told caller n.notified (c ∷ []) t)
]

deliver_all-IsTold :
    (caller : ℕ) (es : List LogEntry) (n : Node)
    → IsTold caller n
    → IsTold caller (deliver_all es n)
unfolding deliver_all
deliver_all-IsTold caller [] n t = t
deliver_all-IsTold caller (e ∷ es) n t =
    deliver_all-IsTold caller es (deliver e n) (deliver-IsTold caller e n t)

caller_at-without :
    (i j : ℕ) (ps : List (ℕ × ℕ)) → i ≢ j → caller_at i (without j ps) ≡ caller_at i ps
caller_at-without i j [] other = refl
caller_at-without i j (p ∷ ps) other = ground (arith, caller_at-without i j ps other)

deliver_at-IsTold :
    (e : LogEntry) (n : Node) {caller : ℕ}
    → caller_at e.index n.proposals ≡ some caller
    → IsTold caller (deliver e n)
unfolding deliver notify_proposal
deliver_at-IsTold e n {caller} waits =
    rw (deliver, notify_proposal, waits)
      (
        length n.notified,
        get_elem?-append_right n.notified (caller ∷ []) 0 (length n.notified) (omega arith),
      )

deliver-waits :
    (e : LogEntry) (n : Node) (i : ℕ)
    → i ≢ e.index
    → caller_at i (deliver e n).proposals ≡ caller_at i n.proposals
unfolding deliver notify_proposal
deliver-waits e n i other = elim (Option-cases (caller_at e.index n.proposals)) [
  | inl nobody ↦ rw (deliver, notify_proposal, nobody) refl
  | inr (c, waits) ↦
      rw (deliver, notify_proposal, waits) (caller_at-without i e.index n.proposals other)
]

-- Whoever waits at an index that is delivered is told.
delivered-IsTold :
    (k : ℕ) (es : List LogEntry) (n : Node) (j : ℕ) {e : LogEntry} {caller : ℕ}
    → Contiguous k es
    → get_elem? es j ≡ some e
    → caller_at (k + j) n.proposals ≡ some caller
    → IsTold caller (deliver_all es n)
unfolding deliver_all
delivered-IsTold k [] n j c found waits = absurd (cc)
delivered-IsTold k (e ∷ es) n zero {caller = caller} c found waits =
    let here : e.index ≡ k + 0 = omega (arith, c.0) in
    deliver_all-IsTold caller es (deliver e n) (deliver_at-IsTold e n (rw here waits))
delivered-IsTold k (e ∷ es) n (suc j) c found waits =
    let next : k + suc j ≡ suc k + j = omega arith in
    let other : suc k + j ≢ e.index = λ p. omega (arith, c.0) in
    delivered-IsTold (suc k) es (deliver e n) j c.1 found
      (deliver-waits e n (suc k + j) other ∙ rw next at waits)

pending_at :
    (n : Node) (i : ℕ) {f : LogEntry}
    → get_entry n.log i ≡ some f
    → n.log.last_applied < i
    → i ≤ n.log.commit_index
    → get_elem? (pending n) (i - suc n.log.last_applied) ≡ some f
unfolding get_entry
pending_at n i found after within =
    let back : suc n.log.last_applied + (i - suc n.log.last_applied) ≡ i = omega arith in
    get_elem?-take (n.log.commit_index - n.log.last_applied) _ (i - suc n.log.last_applied)
      (omega arith)
    ∙ get_elem?-drop (suc n.log.last_applied) (i - suc n.log.last_applied) n.log.entries
    ∙ rw back found

apply_committed-IsTold :
    (n : Node) (i : ℕ) {f : LogEntry} {caller : ℕ}
    → IsWellFormed n.log
    → length n.log.entries < 2 ^ 64
    → get_entry n.log i ≡ some f
    → n.log.last_applied < i
    → i ≤ n.log.commit_index
    → caller_at i n.proposals ≡ some caller
    → IsTold caller (apply_committed n)
unfolding apply_committed
apply_committed-IsTold n i w small found after within waits =
    let back : i ≡ suc n.log.last_applied + (i - suc n.log.last_applied) = omega arith in
    rw (apply_committed, unapplied_lem n w small)
      (delivered-IsTold (suc n.log.last_applied) (pending n) n (i - suc n.log.last_applied)
        (pending-Contiguous n w) (pending_at n i found after within) (rw back at waits))

applied_before :
    (payload : Bytes) (n n1 : Node)
    → IsWellFormed n.log
    → n1.log ≡ append n.log (proposed payload n ∷ [])
    → n1.log.last_applied < length n.log.entries
unfolding append
applied_before payload n n1 w p =
    omega (arith, w.commit_bound, w.applied_bound, ap (λ (l : RaftLog). l.last_applied) p)

-- A caller's entry is in a leader's log; a later leader's message puts an entry of another term at
-- that index, and commits it. When that entry is applied, the caller is told that its own proposal
-- has succeeded.
pub overwritten_caller-IsTold :
    (payload : Bytes) (caller : ℕ) (n : Node) {n1 : Node} {index term : ℕ} (env : Env)
    (req : AppendEntriesRequest) {n2 : Node} {r : AppendEntriesResponse} (j : ℕ) {e : LogEntry}
    → IsWellFormed n.log
    → last_index n.log + 1 < 2 ^ 64
    → propose payload caller n ≡ (n1, waiting index term)
    → Contiguous (suc req.prev_log_index) req.entries
    → handle_append_entries env req n1 ≡ some (n2, r)
    → r.success ≡ true
    → get_elem? req.entries j ≡ some e
    → e.index ≡ index
    → e.term ≢ term
    → index ≤ n2.log.commit_index
    → length n2.log.entries < 2 ^ 64
    → IsTold caller (apply_committed n2)
      × ((f : LogEntry) × (get_entry n2.log index ≡ some f) × (f.term ≢ term))
overwritten_caller-IsTold payload caller n {n1} {index} {term} env req {n2} j {e} w small q c
      handles ok found at_index other within small2 =
    let a = propose-waiting payload caller n small q in
    let accepted = propose-Accepted payload caller n w small q in
    let kept = handle_append_entries-Kept env req n1 accepted.0 c handles in
    let agrees = handle_append_entries-Agrees env req n1 accepted.0 c handles ok in
    let (f, there, same) = All-get_elem? (Has n2.log) req.entries j agrees.present found in
    let there_at : get_entry n2.log index ≡ some f =
      subst (λ i. get_entry n2.log i ≡ some f) at_index there in
    let before = applied_before payload n n1 w a.log_of in
    let waits : caller_at index n2.proposals ≡ some caller =
      ap (caller_at index) (handle_append_entries-callers env req n1 handles) ∙ a.remembered in
    (
      apply_committed-IsTold n2 index kept.well_formed small2 there_at
          (omega (arith, kept.applied, before, accepted.2)) within waits,
      (f, there_at, λ p. other (sym same ∙ p)),
    )
